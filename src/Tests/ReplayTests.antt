-- ===== src/Tests/ReplayTests.antt =====
-- Replayed requests (middleware/nonce.go, middleware/timestamp.go).
use go_rpc_gateway.Prelude.{
  ℕ, suc, ◌/◌, ◌≤◌, ◌≡◌, ◌≢◌, ◌↔◌, ◌⊎◌, inl, inr, refl, true, false, Option, none, some, List, [],
  ◌∷◌, String, str_eq, eq_iff, Bool-cases, if◌then◌else◌, arith,
}
use text.Mathlib.TextPositions.{eq_refl}
use go_rpc_gateway.Prelude.Int.{ℤ, pos, negsuc, ltb_ℤ}
use go_rpc_gateway.Replay.Timestamp
use go_rpc_gateway.Replay.Timestamp.{Signature, Library, timestamp_middleware}
use go_rpc_gateway.Replay.Nonce.{Redis, check_and_incr_nonce, nonce_middleware}
use go_rpc_gateway.Replay.Laws.{distance, timestamp_middleware-next_iff, served, room, served-le}

abbrev library : Library
library = record {
  match_path_in_list = λ path paths. false;
  parse_int = λ text.
      if str_eq text "-9223372035154775808" then some (negsuc 9223372035154775807) else none;
}

abbrev config : Signature
config = record {
  enabled = true;
  require_timestamp = true;
  require_nonce = true;
  ignore_paths = [];
  timeout_window = pos 300000000000;
  nonce_key_prefix = "nonce:";
  nonce_ttl = pos 300000000000;
}

present : ◌≢◌ {A = String} "-9223372035154775808" ""
present = ground (arith, eq_iff "-9223372035154775808" "")

-- 2 ^ 63 seconds before the second 1700000000.
timestamp_middleware-next_iff_example :
    (timestamp_middleware library config (pos 1700000000) "/pay" "-9223372035154775808"
      ≡ Timestamp.next_called)
    ↔ ((distance 1700000000 (negsuc 9223372035154775807) ≤ 300000000000 / 1000000000)
        ⊎ (distance 1700000000 (negsuc 9223372035154775807) ≡ 9223372036854775808))
timestamp_middleware-next_iff_example =
    timestamp_middleware-next_iff library config 300000000000 1700000000 "/pay"
      "-9223372035154775808" (negsuc 9223372035154775807) refl refl refl present refl refl
      (omega arith) (omega arith) (omega arith) (omega arith)

pub answer-eq : (m n : ℕ) → ◌≡◌ {A = Option ℕ} (some (suc m)) (some n) → n ≡ suc m
answer-eq m n e = cc

abbrev pub bump : String → (String → ℕ) → String → ℕ
bump k s j = if str_eq k j then suc (s j) else s j

pub bump_self : (k : String) (s : String → ℕ) → bump k s k ≡ suc (s k)
bump_self k s = ground (arith, eq_refl k)

pub bump_cases : (k j : String) (s : String → ℕ) → (bump k s j ≡ s j) ⊎ (bump k s j ≡ suc (s j))
bump_cases k j s = elim (Bool-cases (str_eq k j)) [
  | inl same ↦ inr (rw same)
  | inr other ↦ inl (rw other)
]

abbrev pub clear : String → (String → ℕ) → String → ℕ
clear k s j = if str_eq k j then 0 else s j

pub expire_kept :
    (k j : String) (ttl : ℤ) (s : String → ℕ)
    → ltb_ℤ (pos 0) ttl ≡ true
    → (if ltb_ℤ (pos 0) ttl then s else clear k s) j ≡ s j
expire_kept k j ttl s h = rw h refl

pub expire_cleared :
    (k : String) (ttl : ℤ) (s : String → ℕ)
    → ltb_ℤ (pos 0) ttl ≡ false
    → true ≡ true
    → (if ltb_ℤ (pos 0) ttl then s else clear k s) k ≡ 0
expire_cleared k ttl s h _ = rw h (ground (arith, eq_refl k))

-- A server whose commands always succeed.
abbrev pub server : Redis
server = record {
  Store = String → ℕ;
  count = λ s k. s k;
  incr = λ k s. (bump k s, some (suc (s k)));
  expire = λ k ttl s. (if ltb_ℤ (pos 0) ttl then s else clear k s, true);
  incr_answer = λ k s n e. (answer-eq (s k) n e, bump_self k s);
  incr_grows = bump_cases;
  expire_count = expire_kept;
  expire_deletes = expire_cleared;
}

abbrev requests : List (String × String)
requests = ("/pay", "n1") ∷ ("/pay", "n1") ∷ ("/pay", "n2") ∷ []

n1_present : ◌≢◌ {A = String} "n1" ""
n1_present = ground (arith, eq_iff "n1" "")

served-le_example :
    served server library config "n1" requests (λ k. 0) ≤ room server library config 0
served-le_example =
    served-le server library config "n1" requests (λ k. 0) refl refl (refl, (refl, (refl, tt))) refl
      n1_present

served_run : served server library config "n1" requests (λ k. 0) ≡ 1
unfolding served nonce_middleware check_and_incr_nonce
served_run = refl
