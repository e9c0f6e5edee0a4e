-- ===== src/Storage.antt =====
-- cpool/oss/boltdb.go: an object store in a BoltDB file. Object data are bytes, as numbers.
pub mod Laws
pub mod Failures
use Prim.Native.Char.{code}
use Prim.Native.String
use Prim.Native.String.{[], ◌∷◌}
use go_rpc_gateway.Prelude.{
  ℕ, suc, Bool, true, false, ◌&&◌, ◌||◌, ◌≡◌, ◌≢◌, Option, none, some, List, [], ◌∷◌, ◌++◌, length,
  String, str_eq, ltb, ◌==◌, if◌then◌else◌,
}
use go_rpc_gateway.Prelude.Int.{ℤ, pos, ltb_ℤ}

abbrev pub Bytes : Type 0
Bytes = List ℕ

-- `metadata` is empty in every object that the store makes. Times are instants.
pub record ObjectInfo : Type 0 where
  pub key : String
  pub size : ℕ
  pub etag : String
  pub content_type : String
  pub last_modified : ℕ

pub record BucketInfo : Type 0 where
  pub name : String
  pub creation_date : ℕ

-- A BoltDB file: `none` is an error. `has` says whether a bucket is there, `get` gives no bytes for a
-- key that is not, `from` lists the pairs that a cursor meets from `Seek` on. `commits` says whether
-- a transaction that ended in a state is written.
pub record Bolt : Type 1 where
  pub Db : Type 0
  pub has : Db → String → Bool
  pub get : Db → (bucket key : String) → Bytes
  pub put : (bucket key : String) → Bytes → Db → Option Db
  pub delete : (bucket key : String) → Db → Option Db
  pub create : String → Db → Option Db
  pub drop : String → Db → Option Db
  pub from : Db → (bucket key : String) → List (String × Bytes)
  pub commits : Db → Bool
  -- The key is not empty, and both are within the limits of BoltDB.
  pub accepts : String → Bytes → Bool
  pub put_accepted :
      (b k : String) (v : Bytes) (d : Db) → has d b ≡ true → accepts k v ≡ true → put b k v d ≢ none
  pub get-put :
      (b k b' k' : String) (v : Bytes) (d d' : Db)
      → put b k v d ≡ some d'
      → get d' b' k' ≡ (if str_eq b b' && str_eq k k' then v else get d b' k')
  pub has-put :
      (b k b' : String) (v : Bytes) (d d' : Db) → put b k v d ≡ some d' → has d' b' ≡ has d b'
  pub get-delete :
      (b k b' k' : String) (d d' : Db)
      → delete b k d ≡ some d'
      → get d' b' k' ≡ (if str_eq b b' && str_eq k k' then [] else get d b' k')
  pub has-delete : (b k b' : String) (d d' : Db) → delete b k d ≡ some d' → has d' b' ≡ has d b'

-- What the code calls of other packages: jsoniter, by which a value that was written is read back
-- and no value is written as no bytes; MD5 in hexadecimal; and the detection of a content type.
pub record Library : Type 0 where
  pub marshal_object : ObjectInfo → Option Bytes
  pub unmarshal_object : Bytes → Option ObjectInfo
  pub marshal_bucket : BucketInfo → Option Bytes
  pub unmarshal_bucket : Bytes → Option BucketInfo
  pub md5_hex : Bytes → String
  pub detect_content_type : Bytes → String
  pub unmarshal-marshal :
      (o : ObjectInfo) (v : Bytes)
      → marshal_object o ≡ some v
      → (unmarshal_object v ≡ some o) × (v ≢ [])

pub data Failure : Type 0 where
  bucket_not_found object_not_found presigned_url_not_supported : Failure
  bolt_failed json_failed read_failed : Failure

pub data Result (A : Type 0) : Type 0 where
  ok : A → Result A
  error : Failure → Result A

module _ {A B : Type 0} where
  infixl 5 ◌>>=◌
  abbrev pub ◌>>=◌ : Result A → (A → Result B) → Result B
  ok a >>= k = k a
  error e >>= k = error e

module _ {A : Type 0} where
  -- An error of a called package, as `e`.
  abbrev pub or_fail : Failure → Option A → Result A
  or_fail e none = error e
  or_fail e (some a) = ok a

-- `bucket == nil`
abbrev pub guard : Bool → Result Unit
guard true = ok tt
guard false = error bucket_not_found

abbrev pub metadata_bucket : String
metadata_bucket = "metadata/buckets"

unfoldable pub object_bucket : String → String
object_bucket name = String.◌++◌ "metadata/objects/" name

unfoldable pub blob_bucket : String → String
blob_bucket name = String.◌++◌ "blob/objects/" name

-- `bytes.Compare(k, prefix) < 0`: the order of UTF-8 texts is that of their characters.
unfoldable pub before : String → String → Bool
before [] [] = false
before [] (c ∷ t) = true
before (c ∷ s) [] = false
before (c ∷ s) (e ∷ t) =
    let later = before s t in ltb (code c) (code e) || (code c == code e && later)

-- What `ListObjects` returns: an error comes with what was listed before it.
pub record Listing : Type 0 where
  pub objects : List ObjectInfo
  pub next_marker : String
  pub failure : Option Failure

module _ (b : Bolt) where
  -- `db.Update`: a transaction that fails leaves the file as it was.
  unfoldable pub update : (b.Db → Result b.Db) → b.Db → b.Db × Option Failure
  update f d = elim (f d) [
    | error e ↦ (d, some e)
    | ok d' ↦ if b.commits d' then (d', none) else (d, some bolt_failed)
  ]

  unfoldable pub bucket_exists : String → b.Db → Bool
  bucket_exists name d =
      if b.has d metadata_bucket then some_bytes (b.get d metadata_bucket name) else false
    where
      some_bytes : Bytes → Bool
      some_bytes [] = false
      some_bytes (x ∷ xs) = true

  -- `len(val) == 0`
  abbrev pub found : Bytes → Result Bytes
  found [] = error object_not_found
  found (x ∷ xs) = ok (x ∷ xs)

  unfoldable pub get_object_blob : (bucket key : String) → b.Db → Result Bytes
  unfolding blob_bucket
  get_object_blob bucket key d = do
    _ ← guard (b.has d (blob_bucket bucket))
    found (b.get d (blob_bucket bucket) key)

  -- The transactions, each as a function of the file.
  abbrev pub erase_bucket : String → b.Db → Result b.Db
  erase_bucket name d₀ = do
    d₁ ← or_fail bolt_failed (b.drop (object_bucket name) d₀)
    d₂ ← or_fail bolt_failed (b.drop (blob_bucket name) d₁)
    _ ← guard (b.has d₂ metadata_bucket)
    or_fail bolt_failed (b.delete metadata_bucket name d₂)

  abbrev pub make_bucket : String → Bytes → b.Db → Result b.Db
  make_bucket name v d₀ = do
    _ ← guard (b.has d₀ metadata_bucket)
    d₁ ← or_fail bolt_failed (b.create (object_bucket name) d₀)
    d₂ ← or_fail bolt_failed (b.create (blob_bucket name) d₁)
    or_fail bolt_failed (b.put metadata_bucket name v d₂)

  abbrev pub erase : (bucket key : String) → b.Db → Result b.Db
  erase bucket key d₀ = do
    _ ← guard (b.has d₀ (object_bucket bucket))
    d₁ ← or_fail bolt_failed (b.delete (object_bucket bucket) key d₀)
    _ ← guard (b.has d₁ (blob_bucket bucket))
    or_fail bolt_failed (b.delete (blob_bucket bucket) key d₁)

  unfoldable pub delete_bucket : String → b.Db → b.Db × Option Failure
  unfolding update object_bucket blob_bucket
  delete_bucket name d = update (erase_bucket name) d

  unfoldable pub delete_object : (bucket key : String) → b.Db → b.Db × Option Failure
  unfolding update object_bucket blob_bucket
  delete_object bucket key d = update (erase bucket key) d

  module _ (l : Library) where
    abbrev buckets_of : List (String × Bytes) → List BucketInfo × Option Failure
    buckets_of [] = ([], none)
    buckets_of ((name, v) ∷ rest) =
        let later = buckets_of rest in
        elim (l.unmarshal_bucket v) [
          | none ↦ ([], some json_failed)
          | some info ↦ (info ∷ later.0, later.1)
        ]

    -- The buckets before the first that cannot be read, and whether there is one.
    unfoldable pub list_buckets : b.Db → List BucketInfo × Option Failure
    list_buckets d =
        if b.has d metadata_bucket then buckets_of (b.from d metadata_bucket "") else ([], none)

    unfoldable pub create_bucket : String → ℕ → b.Db → b.Db × Option Failure
    unfolding update object_bucket blob_bucket
    create_bucket name now d =
        elim (l.marshal_bucket (record { name = name; creation_date = now })) [
          | none ↦ (d, some json_failed)
          | some v ↦ update (make_bucket name v) d
        ]

    -- The loop of `ListObjects`, on the pairs that the cursor has left, with `count` so far.
    unfoldable pub list_each : String → ℤ → List (String × Bytes) → ℕ → (marker : String) → Listing
    unfolding before
    list_each prefix limit [] count marker = record {
      objects = [];
      next_marker = marker;
      failure = none;
    }
    list_each prefix limit ((k, v) ∷ rest) count marker = elim (ltb_ℤ (pos count) limit) [
      | false ↦ record { objects = []; next_marker = marker; failure = none }
      | true ↦ elim (before k prefix) [
        | true ↦ list_each prefix limit rest count marker
        | false ↦ elim (l.unmarshal_object v) [
          | none ↦ record { objects = []; next_marker = marker; failure = some json_failed }
          | some o ↦
              let later = list_each prefix limit rest (suc count) o.key in
              record later { objects = o ∷ later.objects }
        ]
      ]
    ]

    unfoldable pub list_objects : (bucket prefix : String) → ℤ → b.Db → Listing
    unfolding list_each object_bucket
    list_objects bucket prefix limit d = elim (b.has d (object_bucket bucket)) [
      | false ↦ record { objects = []; next_marker = ""; failure = some bucket_not_found }
      | true ↦ list_each prefix limit (b.from d (object_bucket bucket) prefix) 0 ""
    ]

    unfoldable pub get_object : (bucket key : String) → b.Db → Result ObjectInfo
    unfolding object_bucket
    get_object bucket key d = do
      _ ← guard (b.has d (object_bucket bucket))
      v ← found (b.get d (object_bucket bucket) key)
      or_fail json_failed (l.unmarshal_object v)

    -- The object that `PutObject` makes of its data.
    unfoldable pub new_object : (key : String) → Bytes → (content_type : String) → ℕ → ObjectInfo
    new_object key blob content_type now = record {
      key = key;
      size = length blob;
      etag = l.md5_hex blob;
      content_type = if str_eq content_type "" then l.detect_content_type blob else content_type;
      last_modified = now;
    }

    abbrev pub answer : ObjectInfo → b.Db × Option Failure → b.Db × Result ObjectInfo
    answer o (d, none) = (d, ok o)
    answer o (d, some e) = (d, error e)

    abbrev pub store : (bucket : String) → ObjectInfo → Bytes → Bytes → b.Db → Result b.Db
    store bucket o v blob d₀ = do
      _ ← guard (b.has d₀ (object_bucket bucket))
      d₁ ← or_fail bolt_failed (b.put (object_bucket bucket) o.key v d₀)
      _ ← guard (b.has d₁ (blob_bucket bucket))
      or_fail bolt_failed (b.put (blob_bucket bucket) o.key blob d₁)

    -- `data` is what `io.ReadAll` gives; the argument `size` is not read.
    unfoldable pub put_object :
        (bucket key : String)
        → Option Bytes
        → (content_type : String) → ℕ
        → b.Db
        → b.Db × Result ObjectInfo
    unfolding update object_bucket blob_bucket
    put_object bucket key none content_type now d = (d, error read_failed)
    put_object bucket key (some blob) content_type now d =
        let o = new_object key blob content_type now in
        elim (l.marshal_object o) [
          | none ↦ (d, error json_failed)
          | some v ↦ answer o (update (store bucket o v blob) d)
        ]

-- Both presigned URLs.
abbrev pub get_presigned_download_url : (bucket key : String) → ℤ → Result String
get_presigned_download_url bucket key expiry = error presigned_url_not_supported

abbrev pub get_presigned_upload_url : (bucket key : String) → ℤ → Result String
get_presigned_upload_url bucket key expiry = error presigned_url_not_supported
