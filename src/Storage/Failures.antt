-- ===== src/Storage/Failures.antt =====
-- What a failed change of cpool/oss/boltdb.go leaves, and what a deleted object is read as.
use go_rpc_gateway.Prelude.{
  ℕ, ◌≡◌, ◌⊎◌, inl, inr, refl, sym, ap, ◌∙◌, ◌&&◌, str_eq, true, none, some, String, eq_iff,
  Option-cases, Bool-cases, arith,
}
use go_rpc_gateway.Storage.{
  erase, erase_bucket, make_bucket, Bytes, Bolt, Library, ok, error, object_not_found,
  object_bucket, blob_bucket, update, found, get_object_blob, delete_object, delete_bucket,
  create_bucket, get_object, new_object, put_object,
}
use go_rpc_gateway.Storage.Laws.{update_keeps, put_object_run, reads_after}

module _ (b : Bolt) (l : Library) where
  -- The answer of `PutObject` and the reads of its object, its two writes and its commit given.
  put_object_stored :
      (bucket key : String) (v blob : Bytes) (content_type : String) (now : ℕ) (d d₁ d₂ : b.Db)
      → b.has d (object_bucket bucket) ≡ true
      → b.has d (blob_bucket bucket) ≡ true
      → l.marshal_object (new_object b l key blob content_type now) ≡ some v
      → b.put (object_bucket bucket) key v d ≡ some d₁
      → b.put (blob_bucket bucket) key blob d₁ ≡ some d₂
      → b.commits d₂ ≡ true
      → (let o = new_object b l key blob content_type now in
          let end = put_object b l bucket key (some blob) content_type now d in
          (end.1 ≡ ok o)
          × (get_object b l bucket key end.0 ≡ ok o)
          × (get_object_blob b bucket key end.0 ≡ found b blob))
  put_object_stored bucket key v blob content_type now d d₁ d₂ objects blobs written first second
        kept =
      let o = new_object b l key blob content_type now in
      let ran =
        put_object_run b l bucket key v blob content_type now d d₁ d₂ objects blobs written first
          second kept in
      let after =
        reads_after b l bucket key o v blob d d₁ d₂ bucket key objects blobs written first second in
      let own : (str_eq bucket bucket && str_eq key key) ≡ true =
        ground (arith, eq_iff bucket bucket, eq_iff key key) in
      (
        ap (λ r. r.1) ran,
        ap (λ r. get_object b l bucket key r.0) ran ∙ after.0 ∙ rw own refl,
        ap (λ r. get_object_blob b bucket key r.0) ran ∙ after.1 ∙ rw own refl,
      )

  -- `PutObject` leaves the file as it was, or it succeeds and the object and its data are read back.
  put_object_keeps :
      (bucket key : String) (blob : Bytes) (content_type : String) (now : ℕ) (d : b.Db)
      → (let o = new_object b l key blob content_type now in
          let end = put_object b l bucket key (some blob) content_type now d in
          (end.0 ≡ d)
          ⊎ ((end.1 ≡ ok o)
              × (get_object b l bucket key end.0 ≡ ok o)
              × (get_object_blob b bucket key end.0 ≡ found b blob)))
  unfolding put_object update new_object
  put_object_keeps bucket key blob content_type now d =
      let o = new_object b l key blob content_type now in
      let objects = object_bucket bucket in
      let blobs = blob_bucket bucket in
      elim (Option-cases (l.marshal_object o)) [
        | inl unwritten ↦ inl (ground (arith, unwritten))
        | inr (v, written) ↦ elim (Bool-cases (b.has d objects)) [
          | inr missing ↦ inl (ground (arith, written, missing))
          | inl there ↦ elim (Option-cases (b.put objects key v d)) [
            | inl refused ↦ inl (ground (arith, written, there, refused))
            | inr (d₁, first) ↦ elim (Bool-cases (b.has d₁ blobs)) [
              | inr missing ↦ inl (ground (arith, written, there, first, missing))
              | inl second_there ↦ elim (Option-cases (b.put blobs key blob d₁)) [
                | inl refused ↦ inl (ground (arith, written, there, first, second_there, refused))
                | inr (d₂, second) ↦ elim (Bool-cases (b.commits d₂)) [
                  | inr dropped ↦
                      inl (ground (arith, written, there, first, second_there, second, dropped))
                  | inl kept ↦ inr (
                      put_object_stored bucket key v blob content_type now d d₁ d₂ there
                        (sym (b.has-put objects key blobs v d d₁ first) ∙ second_there) written
                        first second kept)
                ]
              ]
            ]
          ]
        ]
      ]

  -- The file after a deletion that succeeded: two deletions in it.
  delete_object_run :
      (bucket key : String) (d : b.Db)
      → (delete_object b bucket key d).1 ≡ none
      → (d₁ : b.Db) × (b.delete (object_bucket bucket) key d ≡ some d₁)
        × (b.delete (blob_bucket bucket) key d₁ ≡ some (delete_object b bucket key d).0)
        × (b.has d (object_bucket bucket) ≡ true)
        × (b.has d₁ (blob_bucket bucket) ≡ true)
  unfolding delete_object update
  delete_object_run bucket key d done = elim (Bool-cases (b.has d (object_bucket bucket))) [
    | inr missing ↦ absurd (ground (arith, missing, done))
    | inl there ↦ elim (Option-cases (b.delete (object_bucket bucket) key d)) [
      | inl refused ↦ absurd (ground (arith, there, refused, done))
      | inr (d₁, first) ↦ elim (Bool-cases (b.has d₁ (blob_bucket bucket))) [
        | inr missing ↦ absurd (ground (arith, there, first, missing, done))
        | inl blobs ↦ elim (Option-cases (b.delete (blob_bucket bucket) key d₁)) [
          | inl refused ↦ absurd (ground (arith, there, first, blobs, refused, done))
          | inr (d₂, second) ↦ elim (Bool-cases (b.commits d₂)) [
            | inr dropped ↦ absurd (ground (arith, there, first, blobs, second, dropped, done))
            | inl kept ↦
                (d₁, first, ground (arith, there, first, blobs, second, kept), there, blobs)
          ]
        ]
      ]
    ]
  ]

  -- After `DeleteObject` succeeded, `GetObject` and `GetObjectBlob` say of that object that it is not
  -- whether or not it was there before.
  pub delete_object_reads :
      (bucket key : String) (d : b.Db)
      → (delete_object b bucket key d).1 ≡ none
      → (get_object b l bucket key (delete_object b bucket key d).0 ≡ error object_not_found)
        × (get_object_blob b bucket key (delete_object b bucket key d).0 ≡ error object_not_found)
  unfolding get_object get_object_blob
  delete_object_reads bucket key d done =
      let d₂ = (delete_object b bucket key d).0 in
      let o = object_bucket bucket in
      let p = blob_bucket bucket in
      let (d₁, first, second, objects, blobs) = delete_object_run bucket key d done in
      (
        ground (
          arith,
          objects,
          b.has-delete o key o d d₁ first,
          b.has-delete p key o d₁ d₂ second,
          b.get-delete o key o key d d₁ first,
          b.get-delete p key o key d₁ d₂ second,
          eq_iff o o,
          eq_iff key key,
        ),
        ground (
          arith,
          blobs,
          b.has-delete p key p d₁ d₂ second,
          b.get-delete p key p key d₁ d₂ second,
          eq_iff p p,
          eq_iff key key,
        ),
      )

  -- A change of an object is whole or not done, also where it fails after some of its writes.
  -- `PutObject` leaves the file as it was, or it succeeds, and then `GetObject` reads the object that it
  -- describes and `GetObjectBlob` its data (of an object without data it says that it is not found);
  -- where its content cannot be read, it leaves the file. `DeleteObject` leaves the file as it was, or
  -- it succeeds, and then both reads say that the object is not found.
  pub changes_keep :
      (bucket key : String) (blob : Bytes) (content_type : String) (now : ℕ) (d : b.Db)
      → (let o = new_object b l key blob content_type now in
          let put = put_object b l bucket key (some blob) content_type now d in
          let erased = delete_object b bucket key d in
          ((put.0 ≡ d)
            ⊎ ((put.1 ≡ ok o)
                × (get_object b l bucket key put.0 ≡ ok o)
                × (get_object_blob b bucket key put.0 ≡ found b blob)))
          × ((put_object b l bucket key none content_type now d).0 ≡ d)
          × ((erased.0 ≡ d)
              ⊎ ((erased.1 ≡ none)
                  × (get_object b l bucket key erased.0 ≡ error object_not_found)
                  × (get_object_blob b bucket key erased.0 ≡ error object_not_found))))
  unfolding delete_object put_object
  changes_keep bucket key blob content_type now d = (
    put_object_keeps bucket key blob content_type now d,
    refl,
    elim (update_keeps b (erase b bucket key) d) [
      | inl done ↦
          let (described, stored) = delete_object_reads bucket key d done in
          inr (done, described, stored)
      | inr kept ↦ inl kept
    ],
  )

  -- A bucket is never half made or half deleted.
  pub bucket_changes_keep :
      (bucket : String) (now : ℕ) (d : b.Db)
      → (((create_bucket b l bucket now d).1 ≡ none) ⊎ ((create_bucket b l bucket now d).0 ≡ d))
        × (((delete_bucket b bucket d).1 ≡ none) ⊎ ((delete_bucket b bucket d).0 ≡ d))
  unfolding create_bucket delete_bucket
  bucket_changes_keep bucket now d = (
    elim (Option-cases (l.marshal_bucket (record { name = bucket; creation_date = now }))) [
      | inl unwritten ↦ inr (rw (create_bucket, unwritten) refl)
      | inr (v, written) ↦ rw (create_bucket, written) (update_keeps b (make_bucket b bucket v) d)
    ],
    update_keeps b (erase_bucket b bucket) d,
  )
