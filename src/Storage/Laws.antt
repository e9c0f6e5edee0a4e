-- ===== src/Storage/Laws.antt =====
-- What a stored object of cpool/oss/boltdb.go is read back as.
use Prim.Native.String
use Prim.Native.String.{slice}
use text.Mathlib.TextLemmas.{append_assoc, append_cancel_left}
use text.Mathlib.TextPositions.{slice-append_left}
use go_rpc_gateway.Prelude.{
  ℕ, ◌≡◌, ◌≢◌, ◌⊎◌, inl, inr, refl, sym, ap, ◌∙◌, true, ◌&&◌, none, some, String, str_eq, eq_iff,
  if◌then◌else◌, Option-cases, arith,
}
use go_rpc_gateway.Storage.{
  Failure, store, answer, Bytes, ObjectInfo, Bolt, Library, Result, ok, error, object_bucket,
  blob_bucket, update, found, get_object_blob, get_object, new_object, put_object,
}

-- The names of the two kinds of buckets differ in their first letter.
object_start : (s : String) → slice (object_bucket s) 0 1 ≡ "m"
unfolding object_bucket
object_start s =
    ap (λ u. slice u 0 1) (append_assoc "m" "etadata/objects/" s)
    ∙ slice-append_left "m" (String.◌++◌ "etadata/objects/" s)

blob_start : (s : String) → slice (blob_bucket s) 0 1 ≡ "b"
unfolding blob_bucket
blob_start s =
    ap (λ u. slice u 0 1) (append_assoc "b" "lob/objects/" s)
    ∙ slice-append_left "b" (String.◌++◌ "lob/objects/" s)

pub apart : (s t : String) → object_bucket s ≢ blob_bucket t
apart s t e =
    ground (arith, eq_iff "m" "b", sym (object_start s) ∙ ap (λ u. slice u 0 1) e ∙ blob_start t)

pub object_bucket_inj : (s t : String) → object_bucket s ≡ object_bucket t → s ≡ t
unfolding object_bucket
object_bucket_inj s t e = append_cancel_left "metadata/objects/" s t e

pub blob_bucket_inj : (s t : String) → blob_bucket s ≡ blob_bucket t → s ≡ t
unfolding blob_bucket
blob_bucket_inj s t e = append_cancel_left "blob/objects/" s t e

pub Result-cases :
    {A : Type 0} (r : Result A) → ((a : A) × (r ≡ ok a)) ⊎ ((e : Failure) × (r ≡ error e))
Result-cases (ok a) = inl (a, refl)
Result-cases (error e) = inr (e, refl)

module _ (b : Bolt) where
  update_ok :
      (f : b.Db → Result b.Db) (d d' : b.Db)
      → f d ≡ ok d'
      → b.commits d' ≡ true
      → update b f d ≡ (d', none)
  unfolding update
  update_ok f d d' done kept = rw (update, done, kept) refl

  -- Nothing but a commit changes the file.
  pub update_keeps :
      (f : b.Db → Result b.Db) (d : b.Db) → ((update b f d).1 ≡ none) ⊎ ((update b f d).0 ≡ d)
  unfolding update
  update_keeps f d = elim (Result-cases (f d)) [
    | inl (d', done) ↦ ground (arith, done)
    | inr (e, bad) ↦ ground (arith, bad)
  ]

module _ (b : Bolt) (l : Library) where
  -- The reads of an object, on the file.
  abbrev reads : (bucket key : String) → b.Db → Result ObjectInfo × Result Bytes
  reads bucket key d = (get_object b l bucket key d, get_object_blob b bucket key d)

  -- After two writes that went through, the reads of the object and of any other.
  reads-put :
      (bucket key : String) (v blob : Bytes) (d d₁ d₂ : b.Db) (bucket' key' : String)
      → b.put (object_bucket bucket) key v d ≡ some d₁
      → b.put (blob_bucket bucket) key blob d₁ ≡ some d₂
      → (b.get d₂ (object_bucket bucket') key' ≡ (
          if str_eq bucket bucket' && str_eq key key'
          then v
          else b.get d (object_bucket bucket') key'))
        × (b.get d₂ (blob_bucket bucket') key' ≡ (
            if str_eq bucket bucket' && str_eq key key'
            then blob
            else b.get d (blob_bucket bucket') key'))
  reads-put bucket key v blob d d₁ d₂ bucket' key' first second =
      let o = object_bucket bucket in
      let p = blob_bucket bucket in
      let o' = object_bucket bucket' in
      let p' = blob_bucket bucket' in
      let names = eq_iff bucket bucket' in
      (
        ground (
          arith,
          b.get-put o key o' key' v d d₁ first,
          b.get-put p key o' key' blob d₁ d₂ second,
          eq_iff p o',
          apart bucket' bucket,
          eq_iff o o',
          object_bucket_inj bucket bucket',
          names,
        ),
        ground (
          arith,
          b.get-put o key p' key' v d d₁ first,
          b.get-put p key p' key' blob d₁ d₂ second,
          eq_iff o p',
          apart bucket bucket',
          eq_iff p p',
          blob_bucket_inj bucket bucket',
          names,
        ),
      )

  store_ok :
      (bucket : String) (o : ObjectInfo) (v blob : Bytes) (d d₁ d₂ : b.Db)
      → b.has d (object_bucket bucket) ≡ true
      → b.put (object_bucket bucket) o.key v d ≡ some d₁
      → b.has d₁ (blob_bucket bucket) ≡ true
      → b.put (blob_bucket bucket) o.key blob d₁ ≡ some d₂
      → store b l bucket o v blob d ≡ ok d₂
  store_ok bucket o v blob d d₁ d₂ objects first blobs second =
      rw (objects, first, blobs, second) refl

  -- The run of `PutObject`, its two writes and its commit given.
  pub put_object_run :
      (bucket key : String) (v blob : Bytes) (content_type : String) (now : ℕ) (d d₁ d₂ : b.Db)
      → b.has d (object_bucket bucket) ≡ true
      → b.has d (blob_bucket bucket) ≡ true
      → l.marshal_object (new_object b l key blob content_type now) ≡ some v
      → b.put (object_bucket bucket) key v d ≡ some d₁
      → b.put (blob_bucket bucket) key blob d₁ ≡ some d₂
      → b.commits d₂ ≡ true
      → put_object b l bucket key (some blob) content_type now d
        ≡ (d₂, ok (new_object b l key blob content_type now))
  unfolding put_object new_object
  put_object_run bucket key v blob content_type now d d₁ d₂ objects blobs written first second
        kept =
      let o = new_object b l key blob content_type now in
      let stored =
        store_ok bucket o v blob d d₁ d₂ objects first
          (b.has-put (object_bucket bucket) key (blob_bucket bucket) v d d₁ first ∙ blobs) second in
      rw (put_object, written)
        (ap (answer b l o) (update_ok b (store b l bucket o v blob) d d₂ stored kept))

  -- The reads of any object after a put, by what was put.
  pub reads_after :
      (bucket key : String) (o : ObjectInfo) (v blob : Bytes) (d d₁ d₂ : b.Db)
      (bucket' key' : String)
      → b.has d (object_bucket bucket) ≡ true
      → b.has d (blob_bucket bucket) ≡ true
      → l.marshal_object o ≡ some v
      → b.put (object_bucket bucket) key v d ≡ some d₁
      → b.put (blob_bucket bucket) key blob d₁ ≡ some d₂
      → (get_object b l bucket' key' d₂ ≡ (
          if str_eq bucket bucket' && str_eq key key' then ok o else get_object b l bucket' key' d))
        × (get_object_blob b bucket' key' d₂ ≡ (
            if str_eq bucket bucket' && str_eq key key'
            then found b blob
            else get_object_blob b bucket' key' d))
  unfolding get_object get_object_blob
  reads_after bucket key o v blob d d₁ d₂ bucket' key' objects blobs written first second =
      let names = eq_iff bucket bucket' in
      let back = l.unmarshal-marshal o v written in
      let now = reads-put bucket key v blob d d₁ d₂ bucket' key' first second in
      let o' = object_bucket bucket' in
      let p' = blob_bucket bucket' in
      (
        ground (
          arith,
          objects,
          back,
          now.0,
          names,
          b.has-put (object_bucket bucket) key o' v d d₁ first,
          b.has-put (blob_bucket bucket) key o' blob d₁ d₂ second,
        ),
        ground (
          arith,
          blobs,
          now.1,
          names,
          b.has-put (object_bucket bucket) key p' v d d₁ first,
          b.has-put (blob_bucket bucket) key p' blob d₁ d₂ second,
        ),
      )

  -- Into a bucket that is there, of a key and data within BoltDB's limits, and where the commit goes
  -- through, `PutObject` succeeds with the object it describes. From then on `GetObject` and
  -- `GetObjectBlob` read that object and its data back, an object without data excepted, for which
  -- `GetObjectBlob` says that it is not found; and every other object reads as before.
  pub put_object_reads :
      (bucket key : String) (v blob : Bytes) (content_type : String) (now : ℕ) (d : b.Db)
      (bucket' key' : String)
      → b.has d (object_bucket bucket) ≡ true
      → b.has d (blob_bucket bucket) ≡ true
      → l.marshal_object (new_object b l key blob content_type now) ≡ some v
      → b.accepts key v ≡ true
      → b.accepts key blob ≡ true
      → ((d' : b.Db) → b.commits d' ≡ true)
      → ((put_object b l bucket key (some blob) content_type now d).1
          ≡ ok (new_object b l key blob content_type now))
        × (get_object b l bucket' key' (put_object b l bucket key (some blob) content_type now d).0
            ≡ (if str_eq bucket bucket' && str_eq key key'
                then ok (new_object b l key blob content_type now)
                else get_object b l bucket' key' d))
        × (get_object_blob b bucket' key'
              (put_object b l bucket key (some blob) content_type now d).0
            ≡ (if str_eq bucket bucket' && str_eq key key'
                then found b blob
                else get_object_blob b bucket' key' d))
  put_object_reads bucket key v blob content_type now d bucket' key' objects blobs written fits
        fits_blob commit =
      let o = new_object b l key blob content_type now in
      let names = object_bucket bucket in
      elim (Option-cases (b.put names key v d)) [
        | inl refused ↦ absurd (b.put_accepted names key v d objects fits refused)
        | inr (d₁, first) ↦
            let there = b.has-put names key (blob_bucket bucket) v d d₁ first ∙ blobs in
            elim (Option-cases (b.put (blob_bucket bucket) key blob d₁)) [
              | inl refused ↦
                  absurd (b.put_accepted (blob_bucket bucket) key blob d₁ there fits_blob refused)
              | inr (d₂, second) ↦
                  let ran =
                    put_object_run bucket key v blob content_type now d d₁ d₂ objects blobs written
                      first second (commit d₂) in
                  let after =
                    reads_after bucket key o v blob d d₁ d₂ bucket' key' objects blobs written first
                      second in
                  (
                    ap (λ r. r.1) ran,
                    ap (λ r. get_object b l bucket' key' r.0) ran ∙ after.0,
                    ap (λ r. get_object_blob b bucket' key' r.0) ran ∙ after.1,
                  )
            ]
      ]
