-- ===== src/Replay/Nonce.antt =====
-- middleware/nonce.go: a nonce is counted in Redis, and only its first use gets through.
use Prim.Native.String
use go_rpc_gateway.Prelude.{
  ℕ, suc, ◌≡◌, ◌⊎◌, Bool, true, false, Option, none, some, String, str_eq, ltb, ◌==◌, if◌then◌else◌,
}
use go_rpc_gateway.Prelude.Int.{ℤ, pos, ltb_ℤ}
use go_rpc_gateway.Replay.Timestamp.{Signature, Library}

-- The commands of the Redis client that the code calls, on an abstract server state: `none` and
-- `false` are errors. `count` is the number that a key holds, 0 if it is absent. The laws are those
-- of INCR, atomic on the server: an answer is the number after the increment; the other keys keep
-- theirs; an INCR that fails is carried out or not; EXPIRE with a time to live that is positive does
-- not change a number at once, and with another one deletes its key, and no other.
pub record Redis : Type 1 where
  pub Store : Type 0
  pub count : Store → String → ℕ
  pub incr : String → Store → Store × Option ℕ
  pub expire : String → ℤ → Store → Store × Bool
  pub incr_answer :
      (k : String) (s : Store) (n : ℕ)
      → (incr k s).1 ≡ some n
      → (n ≡ suc (count s k)) × (count (incr k s).0 k ≡ suc (count s k))
  pub incr_grows :
      (k j : String) (s : Store)
      → (count (incr k s).0 j ≡ count s j) ⊎ (count (incr k s).0 j ≡ suc (count s j))
  pub expire_count :
      (k j : String) (ttl : ℤ) (s : Store)
      → ltb_ℤ (pos 0) ttl ≡ true
      → count (expire k ttl s).0 j ≡ count s j
  pub expire_deletes :
      (k : String) (ttl : ℤ) (s : Store)
      → ltb_ℤ (pos 0) ttl ≡ false
      → (expire k ttl s).1 ≡ true
      → count (expire k ttl s).0 k ≡ 0

pub data Outcome : Type 0 where
  next_called missing broken replayed : Outcome

module _ (redis : Redis) where
  open redis use {Store, incr, expire}

  after_incr : String → ℤ → Store × Option ℕ → Store × Option ℕ
  after_incr key ttl (s, none) = (s, none)
  after_incr key ttl (s, some n) =
      if n == 1
      then (let r = expire key ttl s in (r.0, if r.1 then some n else none))
      else (s, some n)

  -- `checkAndIncrNonce`; `none` is an error.
  unfoldable pub check_and_incr_nonce : String → String → ℤ → Store → Store × Option ℕ
  unfolding after_incr
  check_and_incr_nonce prefix nonce ttl s =
      let key = String.◌++◌ prefix nonce in after_incr key ttl (incr key s)

  verdict : Store × Option ℕ → Store × Outcome
  verdict (s, none) = (s, broken)
  verdict (s, some n) = (s, if ltb 1 n then replayed else next_called)

  -- `available` says whether global.REDIS is set.
  unfoldable pub nonce_middleware :
      Library → Signature → Bool → String → String → Store → Store × Outcome
  unfolding verdict
  nonce_middleware x c available path nonce s =
      if c.enabled
      then (if c.require_nonce
          then (if available
              then (if x.match_path_in_list path c.ignore_paths
                  then (s, next_called)
                  else if str_eq nonce ""
                  then (s, missing)
                  else verdict (check_and_incr_nonce c.nonce_key_prefix nonce c.nonce_ttl s))
              else (s, next_called))
          else (s, next_called))
      else (s, next_called)
