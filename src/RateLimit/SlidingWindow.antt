-- ===== src/RateLimit/SlidingWindow.antt =====
-- middleware/ratelimit.go: the sliding window limiter, the script that Redis runs for a request with
-- its retries. A script runs alone. The keys of one limit are a record; the set and the counter get
-- the same time to live in one script, so they have one deadline.
pub mod Laws
use go_rpc_gateway.Prelude.{
  ℕ, zero, suc, Bool, true, false, ◌&&◌, Option, none, some, List, [], ◌∷◌, length, if◌then◌else◌,
}
use go_rpc_gateway.Prelude.Int.{ℤ, pos, negsuc, ◌+ℤ◌, ◌-ℤ◌, ◌*ℤ◌, ltb_ℤ, leb_ℤ}
use go_rpc_gateway.Prelude.Words.{int64}
use go_rpc_gateway.RateLimit.Config.{LimitRule}

-- A member of the set: its score, and the number in its text.
pub record Member : Type 0 where
  pub score : ℤ
  pub unique_id : ℤ

-- A counter that is missing counts as 0; the deadline is in seconds of the server's clock.
pub record Keys : Type 0 where
  pub set : List Member
  pub counter : ℤ
  pub deadline : Option ℤ
  pub locked : Bool

abbrev pub no_keys : Keys
no_keys = record { set = []; counter = pos 0; deadline = none; locked = false }

-- Numbers of Lua and of Go: the double that `tonumber` reads, what Redis reads of the text that
-- `tostring` makes of it, and `int64(d.Seconds())`.
pub record Numbers : Type 0 where
  pub tonumber : ℤ → ℤ
  pub tostring : ℤ → ℤ
  pub seconds : ℤ → ℤ

-- The server drops keys whose deadline has come.
unfoldable pub purge : ℤ → Keys → Keys
purge clock keys = elim keys.deadline [
  | none ↦ keys
  | some deadline ↦
      if leb_ℤ deadline clock
      then record keys { set = []; counter = pos 0; deadline = none }
      else keys
]

-- `ZREMRANGEBYSCORE key -inf start`
unfoldable pub remove_until : ℤ → List Member → List Member
remove_until start [] = []
remove_until start (m ∷ rest) =
    let later = remove_until start rest in if leb_ℤ m.score start then later else m ∷ later

-- `ZCOUNT key start +inf`
unfoldable pub count_from : ℤ → List Member → ℕ
count_from start [] = 0
count_from start (m ∷ rest) =
    let later = count_from start rest in if leb_ℤ start m.score then suc later else later

-- `ZADD`: a member that is there gets the score.
unfoldable pub add_member : Member → List Member → List Member
add_member m [] = m ∷ []
add_member m (n ∷ rest) =
    if leb_ℤ m.score n.score
      && leb_ℤ n.score m.score
      && leb_ℤ m.unique_id n.unique_id
      && leb_ℤ n.unique_id m.unique_id
    then m ∷ rest
    else n ∷ add_member m rest

-- `EXPIRE` of the two keys: a time to live that is not positive deletes them.
unfoldable pub expire : ℤ → ℤ → Keys → Keys
expire clock ttl keys =
    if leb_ℤ ttl (pos 0)
    then record keys { set = []; counter = pos 0; deadline = none }
    else record keys { deadline = some (clock +ℤ ttl) }

-- The answer that a result comes to, or none for another try.
unfoldable pub verdict : ℤ → Option Bool
verdict (pos zero) = some false
verdict (pos (suc zero)) = some true
verdict (pos (suc (suc n))) = some false
verdict (negsuc zero) = none
verdict (negsuc (suc n)) = some false

-- Another try, or the answer of this one.
unfoldable pub settled : Keys → Option Bool → Keys × Option Bool → Keys × Option Bool
settled keys none later = later
settled keys (some allowed) later = (keys, some allowed)

-- At most three tries are made.
unfoldable pub first_three : List (Option ℤ) → List (Option ℤ)
first_three (a ∷ b ∷ c ∷ rest) = a ∷ b ∷ c ∷ []
first_three (a ∷ b ∷ []) = a ∷ b ∷ []
first_three (a ∷ []) = a ∷ []
first_three [] = []

module _ (numbers : Numbers) where
  open numbers use {tonumber, tostring, seconds}

  -- The script from the count on, with the lock held.
  unfoldable pub decide : ℤ → ℤ → ℤ → ℤ → ℤ → Keys → Keys × ℤ
  unfolding expire add_member count_from
  decide clock now start limit window_size keys =
      let id = keys.counter +ℤ pos 1 in
      let added = record keys {
        set = add_member (record { score = now; unique_id = id }) keys.set;
        counter = id;
        locked = false;
      } in
      if leb_ℤ limit (pos (count_from start keys.set))
      then (record keys { locked = false }, pos 0)
      else (expire clock (window_size *ℤ pos 2) added, pos 1)

  -- The script, and what it returns.
  unfoldable pub script : ℤ → ℤ → ℤ → ℤ → ℤ → Keys → Keys × ℤ
  unfolding decide remove_until purge
  script clock now start limit window_size before =
      let keys = purge clock before in
      let from = tostring (tonumber start) in
      if keys.locked
      then (keys, negsuc 0)
      else decide clock (tonumber now) from (tonumber limit) (tonumber window_size)
          (record keys { set = remove_until from keys.set; locked = true })

  -- The tries: for each the server's clock, or none when the call fails, which is an error; a list
  -- that is shorter than the tries ends them.
  unfoldable pub attempts : ℤ → LimitRule → List (Option ℤ) → Keys → Keys × Option Bool
  unfolding script verdict settled int64 ◌-ℤ◌
  attempts now rule [] keys = (keys, some false)
  attempts now rule (none ∷ rest) keys = (keys, none)
  attempts now rule (some clock ∷ rest) keys =
      let run =
        script clock now (int64 (now -ℤ rule.window_size)) rule.requests_per_second
          (seconds rule.window_size) keys in
      let later = attempts now rule rest run.0 in settled run.0 (verdict run.1) later

  unfoldable pub allow : ℤ → LimitRule → List (Option ℤ) → Keys → Keys × Option Bool
  unfolding attempts first_three
  allow now rule clocks keys = attempts now rule (first_three clocks) keys

  -- The answers to requests that come one after another.
  unfoldable pub answers : LimitRule → List (ℤ × List (Option ℤ)) → Keys → Keys × List (Option Bool)
  unfolding allow
  answers rule [] keys = (keys, [])
  answers rule ((now, clocks) ∷ rest) keys =
      let own = allow now rule clocks keys in
      let later = answers rule rest own.0 in (later.0, own.1 ∷ later.1)
