-- ===== src/Tests/StorageTests.antt =====
-- The object store (cpool/oss/boltdb.go).
use go_rpc_gateway.Prelude.{
  ◌≡◌, ◌≢◌, ◌⊎◌, refl, sym, ap, inl, inr, Bool, true, ◌&&◌, Option, none, some, [], ◌∷◌, String,
  str_eq, eq_iff, ◌==◌, if◌then◌else◌, Bool-cases, arith,
}
use go_rpc_gateway.Storage.{
  Bytes, ObjectInfo, Bolt, Library, ok, get_object, get_object_blob, put_object, delete_object,
  new_object, error, object_not_found, found,
}
use go_rpc_gateway.Storage.Laws.{put_object_reads}
use go_rpc_gateway.Storage.Failures.{changes_keep}

-- A file whose buckets are all there, as a function of bucket and key.
abbrev File : Type 0
File = String → String → Bytes

abbrev write : String → String → Bytes → File → File
write b k v d b' k' = if str_eq b b' && str_eq k k' then v else d b' k'

read_back : (d d' : File) (b k : String) → ◌≡◌ {A = Option File} (some d) (some d') → d' b k ≡ d b k
read_back d d' b k e = ap (λ (o : Option File). elim o [ none ↦ [] | some f ↦ f b k ]) (sym e)

filled : (d : File) → ◌≢◌ {A = Option File} (some d) none
filled d = ground arith

abbrev bolt : Bolt
bolt = record {
  Db = File;
  has = λ d b. true;
  get = λ d b k. d b k;
  put = λ b k v d. some (write b k v d);
  delete = λ b k d. some (write b k [] d);
  create = λ b d. some d;
  drop = λ b d. some d;
  from = λ d b k. [];
  commits = λ d. true;
  accepts = λ k v. true;
  put_accepted = λ b k v d there fits. filled (write b k v d);
  get-put = λ b k b' k' v d d' e. read_back (write b k v d) d' b' k' e;
  has-put = λ b k b' v d d' e. refl;
  get-delete = λ b k b' k' d d' e. read_back (write b k [] d) d' b' k' e;
  has-delete = λ b k b' d d' e. refl;
}

abbrev blob : Bytes
blob = 7 ∷ 8 ∷ []

abbrev note : ObjectInfo
note = record {
  key = "note";
  size = 2;
  etag = "hash";
  content_type = "text/plain";
  last_modified = 5;
}

-- A codec for that object alone.
abbrev is_note : ObjectInfo → Bool
is_note o =
    str_eq o.key "note"
    && o.size == 2
    && str_eq o.etag "hash"
    && str_eq o.content_type "text/plain"
    && o.last_modified == 5

abbrev marshal_note : ObjectInfo → Option Bytes
marshal_note o = if is_note o then some (1 ∷ []) else none

abbrev unmarshal_note : Bytes → Option ObjectInfo
unmarshal_note [] = none
unmarshal_note (x ∷ xs) = some note

note_eq : (o : ObjectInfo) → is_note o ≡ true → note ≡ o
note_eq o e =
    ground (arith, e, eq_iff o.key "note", eq_iff o.etag "hash", eq_iff o.content_type "text/plain")

note_back :
    (o : ObjectInfo) (v : Bytes) → marshal_note o ≡ some v → (unmarshal_note v ≡ some o) × (v ≢ [])
note_back o [] e = absurd (ground (arith, e))
note_back o (x ∷ xs) e = elim (Bool-cases (is_note o)) [
  | inl equal ↦ (ap some (note_eq o equal), ground arith)
  | inr other ↦ absurd (ground (arith, e, other))
]

abbrev library : Library
library = record {
  marshal_object = marshal_note;
  unmarshal_object = unmarshal_note;
  marshal_bucket = λ info. none;
  unmarshal_bucket = λ v. none;
  md5_hex = λ v. "hash";
  detect_content_type = λ v. "text/plain";
  unmarshal-marshal = note_back;
}

abbrev empty : File
empty b k = []

put_object_reads_example :
    ((put_object bolt library "docs" "note" (some blob) "" 5 empty).1
      ≡ ok (new_object bolt library "note" blob "" 5))
    × (get_object bolt library "docs" "note"
          (put_object bolt library "docs" "note" (some blob) "" 5 empty).0
        ≡ ok (new_object bolt library "note" blob "" 5))
    × (get_object_blob bolt "docs" "note"
          (put_object bolt library "docs" "note" (some blob) "" 5 empty).0
        ≡ ok blob)
unfolding new_object
put_object_reads_example =
    put_object_reads bolt library "docs" "note" (1 ∷ []) blob "" 5 empty "docs" "note" refl refl
      refl refl refl (λ d. refl)

changes_keep_example :
    (let o = new_object bolt library "note" blob "" 5 in
      let put = put_object bolt library "docs" "note" (some blob) "" 5 empty in
      let erased = delete_object bolt "docs" "note" empty in
      ((put.0 ≡ empty)
        ⊎ ((put.1 ≡ ok o)
            × (get_object bolt library "docs" "note" put.0 ≡ ok o)
            × (get_object_blob bolt "docs" "note" put.0 ≡ found bolt blob)))
      × ((put_object bolt library "docs" "note" none "" 5 empty).0 ≡ empty)
      × ((erased.0 ≡ empty)
          ⊎ ((erased.1 ≡ none)
              × (get_object bolt library "docs" "note" erased.0 ≡ error object_not_found)
              × (get_object_blob bolt "docs" "note" erased.0 ≡ error object_not_found))))
changes_keep_example = changes_keep bolt library "docs" "note" blob "" 5 empty
