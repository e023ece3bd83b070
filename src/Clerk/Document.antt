-- ===== src/Clerk/Document.antt =====
-- What `keyForKID` of internal/auth/clerk/verifier.go makes of a JWKS document.
use mathlib.Core.List.{Memᴰ}
use tecora_be.Prelude.{
  ℕ, ◌%◌, ◌^◌, ◌≤◌, ◌||◌, ◌≡◌, refl, sym, ap, ◌∙◌, ◌⊎◌, inl, inr, true, false, not, List, [], ◌∷◌,
  none, some, arith, is_empty, ltb, Bool-cases, Option-cases,
}
use tecora_be.Prelude.Int.{pos}
use tecora_be.Text.{Text, codes, text_eq}
use tecora_be.Text.Trim.{text_eq_iff}
use tecora_be.Clerk.Jwks.{
  Codec, PublicKey, JwksKey, Fetch, lost, answered, find_key, int64, exponent_from, set_bytes,
  rsa_public_key, read_keys, fetched_keys,
}
use tecora_be.Clerk.Numbers.{big_endian, set_bytes-big_endian, exponent_from-big_endian}

-- The later entries stand first.
abbrev pub onto : List (Text × PublicKey) → List (Text × PublicKey) → List (Text × PublicKey)
onto [] keys = keys
onto (entry ∷ entries) keys = onto entries (entry ∷ keys)

-- A key with an id, for RSA.
abbrev pub IsUsable : JwksKey → Type 0
IsUsable k = (is_empty k.kid ≡ false) × (k.kty ≡ codes "RSA")

module _ (codec : Codec) where
  -- The numbers of the key are those that its two texts write in Base64, the exponent in 64 bits.
  pub record IsKey (k : JwksKey) (key : PublicKey) : Type 0 where
    pub n_bytes : List ℕ
    pub e_bytes : List ℕ
    pub n_read : codec.decode_base64 k.n ≡ some n_bytes
    pub e_read : codec.decode_base64 k.e ≡ some e_bytes
    pub modulus : key.n ≡ big_endian n_bytes
    pub exponent : key.e ≡ int64 (big_endian e_bytes % 2 ^ 64)

  -- The entries that a document has: one for each usable key, in order.
  pub data Reads : List JwksKey → List (Text × PublicKey) → Type 0 where
    done : Reads [] []
    skipped :
        (k : JwksKey) (doc : List JwksKey) (entries : List (Text × PublicKey))
        → ¬ (IsUsable k)
        → Reads doc entries
        → Reads (k ∷ doc) entries
    entered :
        (k : JwksKey) (key : PublicKey) (doc : List JwksKey) (entries : List (Text × PublicKey))
        → IsUsable k
        → IsKey k key
        → Reads doc entries
        → Reads (k ∷ doc) ((k.kid, key) ∷ entries)

  rsa_public_key-IsKey :
      (k : JwksKey) (key : PublicKey) → rsa_public_key codec k.n k.e ≡ some key → IsKey k key
  unfolding rsa_public_key
  rsa_public_key-IsKey k key h = elim (Option-cases (codec.decode_base64 k.n)) [
    | inl unread ↦ ground arith
    | inr (n_bytes, n_read) ↦ elim (Option-cases (codec.decode_base64 k.e)) [
      | inl unread ↦ ground arith
      | inr (e_bytes, e_read) ↦
          let made : PublicKey = record {
            n = set_bytes 0 n_bytes;
            e = exponent_from (pos 0) e_bytes;
          } in
          let same : made ≡ key = ground arith in
          record {
            n_bytes = n_bytes;
            e_bytes = e_bytes;
            n_read = n_read;
            e_read = e_read;
            modulus = ap (λ (p : PublicKey). p.n) (sym same) ∙ set_bytes-big_endian n_bytes;
            exponent =
                ap (λ (p : PublicKey). p.e) (sym same) ∙ (exponent_from-big_endian e_bytes).0;
          }
    ]
  ]

  unusable :
      (k : JwksKey) → (is_empty k.kid || not (text_eq k.kty (codes "RSA"))) ≡ true → ¬ (IsUsable k)
  unusable k h (named, rsa) =
      let equal : text_eq k.kty (codes "RSA") ≡ true = (text_eq_iff k.kty (codes "RSA")).1 rsa in
      ground arith

  usable :
      (k : JwksKey) → (is_empty k.kid || not (text_eq k.kty (codes "RSA"))) ≡ false → IsUsable k
  usable k h = (ground arith, (text_eq_iff k.kty (codes "RSA")).0 (ground arith))

  read_keys-Reads :
      (doc : List JwksKey) (keys result : List (Text × PublicKey))
      → read_keys codec doc keys ≡ some result
      → (entries : List (Text × PublicKey)) × Reads doc entries × (result ≡ onto entries keys)
  unfolding read_keys
  read_keys-Reads [] keys result h = ([], done, ground arith)
  read_keys-Reads (k ∷ doc) keys result h =
      elim (Bool-cases (is_empty k.kid || not (text_eq k.kty (codes "RSA")))) [
        | inl odd ↦
            let (entries, reads, same) = read_keys-Reads doc keys result (ground arith) in
            (entries, skipped k doc entries (unusable k odd) reads, same)
        | inr good ↦ elim (Option-cases (rsa_public_key codec k.n k.e)) [
          | inl broken ↦ ground arith
          | inr (key, made) ↦
              let (entries, reads, same) =
                read_keys-Reads doc ((k.kid, key) ∷ keys) result (ground arith) in
              (
                (k.kid, key) ∷ entries,
                entered k key doc entries (usable k good) (rsa_public_key-IsKey k key made) reads,
                same,
              )
        ]
      ]

  -- The answer is a success with a document, and the keys are its entries, the later ones first.
  pub record IsAnswer (fetch : Fetch) (keys : List (Text × PublicKey)) : Type 0 where
    pub status : ℕ
    pub doc : List JwksKey
    pub answer : fetch ≡ answered status (some doc)
    pub at_least : 200 ≤ status
    pub at_most : status ≤ 299
    pub entries : List (Text × PublicKey)
    pub reads : Reads doc entries
    pub same : keys ≡ onto entries []

  pub fetched_keys-IsAnswer :
      (fetch : Fetch) (keys : List (Text × PublicKey))
      → fetched_keys codec fetch ≡ some keys
      → IsAnswer fetch keys
  unfolding fetched_keys
  fetched_keys-IsAnswer lost keys h = cc
  fetched_keys-IsAnswer (answered status none) keys h = cc
  fetched_keys-IsAnswer (answered status (some doc)) keys h =
      elim (Bool-cases (ltb status 200 || ltb 299 status)) [
        | inl bad ↦ ground arith
        | inr good ↦
            let (entries, reads, same) = read_keys-Reads doc [] keys (ground arith) in
            record {
              status = status;
              doc = doc;
              answer = refl;
              at_least = ground arith;
              at_most = ground arith;
              entries = entries;
              reads = reads;
              same = same;
            }
      ]

  -- The document of the answer has a usable key with this id and these numbers.
  pub record IsOffered (fetch : Fetch) (kid : Text) (key : PublicKey) : Type 0 where
    pub status : ℕ
    pub doc : List JwksKey
    pub answer : fetch ≡ answered status (some doc)
    pub at_least : 200 ≤ status
    pub at_most : status ≤ 299
    pub sent : JwksKey
    pub listed : Memᴰ sent doc
    pub id : sent.kid ≡ kid
    pub usable : IsUsable sent
    pub read : IsKey sent key

  find_key-mem :
      (kid : Text) (keys : List (Text × PublicKey)) (key : PublicKey)
      → find_key kid keys ≡ some key
      → Memᴰ (kid, key) keys
  unfolding find_key
  find_key-mem kid [] key h = cc
  find_key-mem kid ((k, p) ∷ keys) key h = elim (Bool-cases (text_eq k kid)) [
    | inl e ↦
        let id : k ≡ kid = (text_eq_iff k kid).0 e in
        let same : p ≡ key = ground arith in Memᴰ.head (ground arith)
    | inr e ↦ Memᴰ.tail (find_key-mem kid keys key (ground arith))
  ]

  mem_onto :
      (e : Text × PublicKey) (entries keys : List (Text × PublicKey))
      → Memᴰ e (onto entries keys)
      → Memᴰ e entries ⊎ Memᴰ e keys
  mem_onto e [] keys m = inr m
  mem_onto e (x ∷ entries) keys m = elim (mem_onto e entries (x ∷ keys) m) [
    | inl there ↦ inl (Memᴰ.tail there)
    | inr (Memᴰ.head same) ↦ inl (Memᴰ.head same)
    | inr (Memᴰ.tail before) ↦ inr before
  ]

  Reads-mem :
      (kid : Text) (key : PublicKey) (doc : List JwksKey) (entries : List (Text × PublicKey))
      → Reads doc entries
      → Memᴰ (kid, key) entries
      → (k : JwksKey) × Memᴰ k doc × (k.kid ≡ kid) × IsUsable k × IsKey k key
  Reads-mem kid key _ _ done m = elim m [ ]
  Reads-mem kid key _ _ (skipped k doc entries odd reads) m =
      let (s, listed, id, good, made) = Reads-mem kid key doc entries reads m in
      (s, Memᴰ.tail listed, id, good, made)
  Reads-mem kid key _ _ (entered k p doc entries good made reads) (Memᴰ.head same) =
      let id : k.kid ≡ kid = ap (λ (e : Text × PublicKey). e.0) (sym same) in
      let equal : p ≡ key = ap (λ (e : Text × PublicKey). e.1) (sym same) in
      (k, Memᴰ.head refl, id, good, rw (← equal) made)
  Reads-mem kid key _ _ (entered k p doc entries good made reads) (Memᴰ.tail m) =
      let (s, listed, id, fine, read) = Reads-mem kid key doc entries reads m in
      (s, Memᴰ.tail listed, id, fine, read)

  -- A key that is found among the keys of an answer is offered by its document.
  pub IsAnswer-IsOffered :
      (fetch : Fetch) (keys : List (Text × PublicKey)) (kid : Text) (key : PublicKey)
      → IsAnswer fetch keys
      → find_key kid keys ≡ some key
      → IsOffered fetch kid key
  IsAnswer-IsOffered fetch keys kid key a found =
      let there : Memᴰ (kid, key) (onto a.entries []) =
        rw (← a.same) (find_key-mem kid keys key found) in
      elim (mem_onto (kid, key) a.entries [] there) [
        | inr nowhere ↦ elim nowhere [ ]
        | inl entry ↦
            let (sent, listed, id, usable, read) =
              Reads-mem kid key a.doc a.entries a.reads entry in
            record {
              status = a.status;
              doc = a.doc;
              answer = a.answer;
              at_least = a.at_least;
              at_most = a.at_most;
              sent = sent;
              listed = listed;
              id = id;
              usable = usable;
              read = read;
            }
      ]
