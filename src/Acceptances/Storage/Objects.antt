-- ===== src/Acceptances/Storage/Objects.antt =====
-- Which uploads of internal/acceptances/storage.go leave a document in the bucket.
use tecora_be.Prelude.{
  ℕ, ◌≡◌, ◌≢◌, refl, sym, ap, ◌∙◌, ◌⊎◌, ◌↔◌, inl, inr, List, ◌∷◌, Option, none, some, Bool-cases,
  Option-cases, All, [], arith,
}
use tecora_be.Text.{Text, text_eq, trim_space}
use tecora_be.Text.Trim.{text_eq_refl, text_eq_iff}
use tecora_be.Db.{Error, Result, ok, err, object_exists}
use tecora_be.Acceptances.Model.{PdfDocument}
use tecora_be.Acceptances.Storage.{
  Bucket, Delivery, handled, answered, lost_request, lost_answer, find_object, upload, upload_with,
  deliver_upload, store_new, upload_result, tick,
}

-- What `Submit` takes for a document in the bucket: an upload that was done, or refused since there
-- is an object of the name.
abbrev pub IsInPlace : Result (Unit {0}) → Type 0
IsInPlace r = (r ≡ ok tt) ⊎ (r ≡ err object_exists)

-- An answer that the storage service does not stand behind is no success and no 412, and no failure
-- before the request arrives reads as `ErrObjectExists`.
pub record IsHonest (b : Bucket) : Type 0 where
  pub tokens : (n : ℕ) (e : Error) → b.token n ≡ err e → e ≢ object_exists
  pub answers :
      (n status : ℕ) (text : Text) (doc : PdfDocument)
      → b.delivery n ≡ answered status text doc
      → ¬ IsInPlace (upload_result status text)
  pub requests : (n : ℕ) (e : Error) → b.delivery n ≡ lost_request e → e ≢ object_exists

abbrev pub Holds : Text → Bucket → Type 0
Holds name b = find_object name b.objects ≢ none

find_object_kept :
    (name other : Text) (doc : PdfDocument) (objects : List (Text × PdfDocument))
    → find_object name objects ≢ none
    → find_object name ((other, doc) ∷ objects) ≢ none
unfolding find_object
find_object_kept name other doc objects h = elim (Bool-cases (text_eq other name)) [
  | inl e ↦ rw e (cc)
  | inr e ↦ rw e h
]

find_object_new :
    (name : Text) (doc : PdfDocument) (objects : List (Text × PdfDocument))
    → find_object name ((name, doc) ∷ objects) ≢ none
unfolding find_object
find_object_new name doc objects = rw (text_eq_refl name) (cc)

module _ (name : Text) (doc : PdfDocument) where
  store_keeps :
      (b : Bucket) (other : Text) (found : Option PdfDocument)
      → Holds other b
      → Holds other (store_new name doc b found).1
  store_keeps b other none h = find_object_kept other name doc b.objects h
  store_keeps b other (some _) h = h

  store-Holds : (b : Bucket) → Holds name (store_new name doc b (find_object name b.objects)).1
  store-Holds b = elim (Option-cases (find_object name b.objects)) [
    | inl e ↦ rw e (find_object_new name doc b.objects)
    | inr (old, e) ↦ rw e (rw e (cc))
  ]

  deliver_keeps :
      (b : Bucket) (other : Text) (d : Delivery)
      → Holds other b
      → Holds other (deliver_upload name doc b d).1
  deliver_keeps b other handled h = store_keeps b other (find_object name b.objects) h
  deliver_keeps b other (answered status text body) h = h
  deliver_keeps b other (lost_request e) h = h
  deliver_keeps b other (lost_answer e) h = store_keeps b other (find_object name b.objects) h

  deliver-Holds :
      (b : Bucket) (n : ℕ) (d : Delivery)
      → IsHonest b
      → b.delivery n ≡ d
      → IsInPlace (deliver_upload name doc b d).0
      → Holds name (deliver_upload name doc b d).1
  deliver-Holds b n handled honest e k = store-Holds b
  deliver-Holds b n (answered status text body) honest e k =
      absurd (honest.answers n status text body e k)
  deliver-Holds b n (lost_request x) honest e (inl k) = cc
  deliver-Holds b n (lost_request x) honest e (inr k) = absurd (honest.requests n x e (cc k))
  deliver-Holds b n (lost_answer x) honest e k = store-Holds b

  with_token_keeps :
      (b : Bucket) (other : Text) (token : Result Text)
      → Holds other b
      → Holds other (upload_with name doc b token).1
  with_token_keeps b other (err e) h = h
  with_token_keeps b other (ok token) h = deliver_keeps (tick b) other (b.delivery b.step) h

  with_token-Holds :
      (b : Bucket) (token : Result Text)
      → IsHonest b
      → b.token b.step ≡ token
      → IsInPlace (upload_with name doc b token).0
      → Holds name (upload_with name doc b token).1
  with_token-Holds b (err x) honest e (inl k) = cc
  with_token-Holds b (err x) honest e (inr k) = absurd (honest.tokens b.step x e (cc k))
  with_token-Holds b (ok token) honest e k =
      deliver-Holds (tick b) b.step (b.delivery b.step)
        (record { tokens = honest.tokens; answers = honest.answers; requests = honest.requests })
        refl k

-- An upload keeps every object of the bucket.
pub upload-Holds :
    (key other : Text) (doc : PdfDocument) (b : Bucket)
    → Holds other b
    → Holds other (upload key doc b).1
unfolding upload
upload-Holds key other doc b h = with_token_keeps (trim_space key) doc b other (b.token b.step) h

-- An upload that counts as done leaves an object under its name, if the service is honest.
pub upload-Holds_new :
    (key : Text) (doc : PdfDocument) (b : Bucket)
    → IsHonest b
    → IsInPlace (upload key doc b).0
    → Holds (trim_space key) (upload key doc b).1
unfolding upload
upload-Holds_new key doc b honest k =
    with_token-Holds (trim_space key) doc b (b.token b.step) honest refl k

module _ (name : Text) (doc : PdfDocument) where
  store_new_rest :
      (b : Bucket) (found : Option PdfDocument)
      → ((store_new name doc b found).1.token ≡ b.token)
        × ((store_new name doc b found).1.delivery ≡ b.delivery)
  store_new_rest b none = (refl, refl)
  store_new_rest b (some old) = (refl, refl)

  deliver_rest :
      (b : Bucket) (d : Delivery)
      → ((deliver_upload name doc b d).1.token ≡ b.token)
        × ((deliver_upload name doc b d).1.delivery ≡ b.delivery)
  deliver_rest b handled = store_new_rest b (find_object name b.objects)
  deliver_rest b (answered status text body) = (refl, refl)
  deliver_rest b (lost_request e) = (refl, refl)
  deliver_rest b (lost_answer e) = store_new_rest b (find_object name b.objects)

  with_token_rest :
      (b : Bucket) (token : Result Text)
      → ((upload_with name doc b token).1.token ≡ b.token)
        × ((upload_with name doc b token).1.delivery ≡ b.delivery)
  with_token_rest b (err e) = (refl, refl)
  with_token_rest b (ok token) = deliver_rest (tick b) (b.delivery b.step)

IsHonest-same :
    (b c : Bucket) → c.token ≡ b.token → c.delivery ≡ b.delivery → IsHonest b → IsHonest c
IsHonest-same b c same_token same_delivery h = record {
  tokens = λ n e k. h.tokens n e (ap (λ (f : ℕ → Result Text). f n) (sym same_token) ∙ k);
  answers = λ n status text doc k.
      h.answers n status text doc (ap (λ (f : ℕ → Delivery). f n) (sym same_delivery) ∙ k);
  requests = λ n e k. h.requests n e (ap (λ (f : ℕ → Delivery). f n) (sym same_delivery) ∙ k);
}

-- An upload does not change whether the service is honest.
pub upload-IsHonest_iff :
    (key : Text) (doc : PdfDocument) (b : Bucket) → IsHonest (upload key doc b).1 ↔ IsHonest b
unfolding upload
upload-IsHonest_iff key doc b =
    let after = (upload_with (trim_space key) doc b (b.token b.step)).1 in
    let (same_token, same_delivery) = with_token_rest (trim_space key) doc b (b.token b.step) in
    (
      λ h. IsHonest-same after b (sym same_token) (sym same_delivery) h,
      λ h. IsHonest-same b after same_token same_delivery h,
    )

module _ {κ} (Q : Text × PdfDocument → Type κ) (name : Text) (doc : PdfDocument)
    (new : Q (name, doc)) where
  store-All :
      (b : Bucket) (found : Option PdfDocument)
      → All Q b.objects
      → All Q (store_new name doc b found).1.objects
  store-All b none h = (new, h)
  store-All b (some old) h = h

  deliver-All :
      (b : Bucket) (d : Delivery) → All Q b.objects → All Q (deliver_upload name doc b d).1.objects
  deliver-All b handled h = store-All b (find_object name b.objects) h
  deliver-All b (answered status text body) h = h
  deliver-All b (lost_request e) h = h
  deliver-All b (lost_answer e) h = store-All b (find_object name b.objects) h

  with_token-All :
      (b : Bucket) (token : Result Text)
      → All Q b.objects
      → All Q (upload_with name doc b token).1.objects
  with_token-All b (err e) h = h
  with_token-All b (ok token) h = deliver-All (tick b) (b.delivery b.step) h

-- What holds of the objects of the bucket and of the new one holds of all of them after an upload.
pub upload-All {κ} :
    (Q : Text × PdfDocument → Type κ) (key : Text) (doc : PdfDocument) (b : Bucket)
    → Q (trim_space key, doc)
    → All Q b.objects
    → All Q (upload key doc b).1.objects
unfolding upload
upload-All Q key doc b new h = with_token-All Q (trim_space key) doc new b (b.token b.step) h

-- An object that is found is one of the objects.
pub find_object-All {κ} :
    (Q : Text × PdfDocument → Type κ) (name : Text) (doc : PdfDocument)
    (objects : List (Text × PdfDocument))
    → All Q objects
    → find_object name objects ≡ some doc
    → Q (name, doc)
unfolding find_object
find_object-All Q name doc [] h e = cc
find_object-All Q name doc ((key, body) ∷ objects) (here, rest) e =
    elim (Bool-cases (text_eq key name)) [
      | inl same ↦
          let same_name : key ≡ name = (text_eq_iff key name).0 same in
          let same_doc : body ≡ doc = ground arith in rw (← same_name, ← same_doc) here
      | inr other ↦ find_object-All Q name doc objects rest (ground arith)
    ]
