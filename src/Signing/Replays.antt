-- ===== src/Signing/Replays.antt =====
-- middleware/signature.go beside middleware/nonce.go: what the two checks make of a request that is
-- sent a second time.
use Prim.Native.String
use go_rpc_gateway.Prelude.{
  ◌≡◌, ◌≢◌, inl, inr, true, false, none, String, eq_iff, Option-cases, arith,
}
use go_rpc_gateway.Signing.{Config, Request, Crypto, hmac_validator}
use go_rpc_gateway.Replay.Timestamp.{Signature, Library}
use go_rpc_gateway.Replay.Nonce.{Redis, nonce_middleware, check_and_incr_nonce}
use go_rpc_gateway.Replay.Nonce

module _ (c : Crypto) (config : Config c.Algorithm) (redis : Redis) where
  open redis use {Store, count, incr, expire}

  abbrev pub with_nonce : String → Request → Request
  with_nonce nonce r = record r { meta = record r.meta { nonce = nonce } }

  fresh_nonce :
      (x : Library) (s : Signature) (path nonce : String) (store : Store)
      → s.enabled ≡ true
      → s.require_nonce ≡ true
      → x.match_path_in_list path s.ignore_paths ≡ false
      → nonce ≢ ""
      → count store (String.◌++◌ s.nonce_key_prefix nonce) ≡ 0
      → (incr (String.◌++◌ s.nonce_key_prefix nonce) store).1 ≢ none
      → (expire
          (String.◌++◌ s.nonce_key_prefix nonce)
          s.nonce_ttl
          (incr (String.◌++◌ s.nonce_key_prefix nonce) store).0).1
        ≡ true
      → (nonce_middleware redis x s true path nonce store).1 ≡ Nonce.next_called
  unfolding nonce_middleware check_and_incr_nonce
  fresh_nonce x s path nonce store on required checked present unused counted kept =
      let key = String.◌++◌ s.nonce_key_prefix nonce in
      elim (Option-cases (incr key store).1) [
        | inl failed ↦ absurd (counted failed)
        | inr (n, answered) ↦ ground (
          arith,
          on,
          required,
          checked,
          present,
          eq_iff nonce "",
          unused,
          answered,
          kept,
          redis.incr_answer key store n answered,
        )
      ]

  -- The nonce is not part of what is signed: a request that passed the HMAC check passes it again
  -- with any other nonce, and a nonce that was never counted gets through the nonce check too,
  -- where Redis carries out its two commands.
  pub hmac_validator_new_nonce :
      (r : Request) (x : Library) (s : Signature) (nonce : String) (store : Store)
      → hmac_validator c r config ≡ none
      → s.enabled ≡ true
      → s.require_nonce ≡ true
      → x.match_path_in_list r.path s.ignore_paths ≡ false
      → nonce ≢ ""
      → count store (String.◌++◌ s.nonce_key_prefix nonce) ≡ 0
      → (incr (String.◌++◌ s.nonce_key_prefix nonce) store).1 ≢ none
      → (expire
          (String.◌++◌ s.nonce_key_prefix nonce)
          s.nonce_ttl
          (incr (String.◌++◌ s.nonce_key_prefix nonce) store).0).1
        ≡ true
      → (hmac_validator c (with_nonce nonce r) config ≡ none)
        × ((nonce_middleware redis x s true r.path nonce store).1 ≡ Nonce.next_called)
  unfolding hmac_validator
  hmac_validator_new_nonce r x s nonce store passed on required checked present unused counted
        kept =
      (passed, fresh_nonce x s r.path nonce store on required checked present unused counted kept)
