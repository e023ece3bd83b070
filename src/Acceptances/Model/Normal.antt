-- ===== src/Acceptances/Model/Normal.antt =====
-- Which submissions `NormalizeSubmission` of internal/acceptances/models.go accepts, and what it
-- makes of them.
use tecora_be.Prelude.{
  ℕ, ◌≡◌, refl, ◌∙◌, ◌↔◌, inl, inr, false, List, [], ◌∷◌, Option, some, arith, is_empty, All,
  Bool-cases, Option-cases,
}
use tecora_be.Text.{Text, trim_space}
use tecora_be.Text.Trim.{trim_space_idempotent}
use tecora_be.Db.{ok}
use tecora_be.Acceptances.Model.{
  Submission, CreateInput, trim_products, trim_submission, lacks_field, normalize_submission,
}

-- The text has a code point that is no space.
abbrev pub IsFilled : Text → Type 0
IsFilled s = is_empty (trim_space s) ≡ false

abbrev pub IsTrimmed : Text → Type 0
IsTrimmed s = (trim_space s ≡ s) × (is_empty s ≡ false)

-- What the client has to send.
pub record IsComplete (parse_time : Text → Option ℕ) (s : Submission) : Type 0 where
  pub signed_at : (t : ℕ) × (parse_time (trim_space s.signed_at) ≡ some t)
  pub products : All IsFilled s.products
  pub some_product : is_empty s.products ≡ false
  pub work_order_id : IsFilled s.work_order_id
  pub customer_name : IsFilled s.customer_name
  pub customer_email : IsFilled s.customer_email
  pub service_date : IsFilled s.service_date
  pub service_expiration_date : IsFilled s.service_expiration_date
  pub service_type : IsFilled s.service_type
  pub signature : IsFilled s.signature_image_base64
  pub technician : IsFilled s.signed_by_technician_id

-- What the service gets.
pub record IsNormal (input : CreateInput) : Type 0 where
  pub products : All IsTrimmed input.products
  pub some_product : is_empty input.products ≡ false
  pub work_order_id : IsTrimmed input.work_order_id
  pub customer_name : IsTrimmed input.customer_name
  pub customer_email : IsTrimmed input.customer_email
  pub service_date : IsTrimmed input.service_date
  pub service_expiration_date : IsTrimmed input.service_expiration_date
  pub service_type : IsTrimmed input.service_type
  pub notes : trim_space input.notes ≡ input.notes
  pub signature : IsTrimmed input.signature_image_base64
  pub technician : IsTrimmed input.signed_by_technician_id

trim_products_inv :
    (ps qs : List Text)
    → trim_products ps ≡ some qs
    → All IsFilled ps × All IsTrimmed qs × (is_empty qs ≡ is_empty ps)
unfolding trim_products
trim_products_inv [] qs h = ground arith
trim_products_inv (p ∷ ps) qs h = elim (Bool-cases (is_empty (trim_space p))) [
  | inl blank ↦ ground arith
  | inr filled ↦ elim (Option-cases (trim_products ps)) [
    | inl refused ↦ ground arith
    | inr (rs, e) ↦
        let (front, back, _) = trim_products_inv ps rs e in
        let same : trim_space p ∷ rs ≡ qs = ground arith in
        rw (← same) ((filled, front), ((trim_space_idempotent p, filled), back), refl)
  ]
]

trim_products_complete :
    (ps : List Text) → All IsFilled ps → (qs : List Text) × (trim_products ps ≡ some qs)
unfolding trim_products
trim_products_complete [] h = ([], refl)
trim_products_complete (p ∷ ps) h =
    let (qs, e) = trim_products_complete ps h.1 in (trim_space p ∷ qs, rw (h.0, e))

module _ (parse_time : Text → Option ℕ) (s : Submission) where
  abbrev Parsed : CreateInput → Type 0
  Parsed input =
      (t : ℕ) × (qs : List Text) × (parse_time (trim_space s.signed_at) ≡ some t)
      × (trim_products s.products ≡ some qs)
      × (lacks_field (trim_submission s qs t) ≡ false)
      × (input ≡ trim_submission s qs t)

  normalize_inv :
      (input : CreateInput) → normalize_submission parse_time s ≡ ok input → Parsed input
  unfolding normalize_submission
  normalize_inv input h = elim (Option-cases (parse_time (trim_space s.signed_at))) [
    | inl bad ↦ ground arith
    | inr (t, time) ↦ elim (Option-cases (trim_products s.products)) [
      | inl blank ↦ ground arith
      | inr (qs, list) ↦
          let full : lacks_field (trim_submission s qs t) ≡ false = ground arith in
          (t, qs, time, list, full, ground arith)
    ]
  ]

  normalize_accepts :
      (t : ℕ) (qs : List Text)
      → parse_time (trim_space s.signed_at) ≡ some t
      → trim_products s.products ≡ some qs
      → lacks_field (trim_submission s qs t) ≡ false
      → normalize_submission parse_time s ≡ ok (trim_submission s qs t)
  unfolding normalize_submission
  normalize_accepts t qs time list full = ground arith

  IsComplete-of_Parsed : (input : CreateInput) → Parsed input → IsComplete parse_time s
  unfolding lacks_field trim_submission
  IsComplete-of_Parsed input (t, qs, time, list, full, same) =
      let (filled, trimmed, count) = trim_products_inv s.products qs list in
      record {
        signed_at = (t, time);
        products = filled;
        some_product = ground arith;
        work_order_id = ground arith;
        customer_name = ground arith;
        customer_email = ground arith;
        service_date = ground arith;
        service_expiration_date = ground arith;
        service_type = ground arith;
        signature = ground arith;
        technician = ground arith;
      }

  Parsed-of_IsComplete : IsComplete parse_time s → (input : CreateInput) × Parsed input
  unfolding lacks_field trim_submission
  Parsed-of_IsComplete k =
      let (t, time) = k.signed_at in
      let (qs, list) = trim_products_complete s.products k.products in
      let (filled, trimmed, count) = trim_products_inv s.products qs list in
      (trim_submission s qs t, (t, qs, time, list, ground arith, refl))

  -- `NormalizeSubmission` accepts a submission exactly if its time of signature is readable, it has a
  -- product, and no product and none of the eight required fields is blank.
  pub normalize_submission_iff :
      ((input : CreateInput) × (normalize_submission parse_time s ≡ ok input))
      ↔ IsComplete parse_time s
  normalize_submission_iff = (
    λ (input, h). IsComplete-of_Parsed input (normalize_inv input h),
    λ k.
        let (input, (t, qs, time, list, full, same)) = Parsed-of_IsComplete k in
        (trim_submission s qs t, normalize_accepts t qs time list full),
  )

  trim_filled : (f : Text) → IsFilled f → IsTrimmed (trim_space f)
  trim_filled f h = (trim_space_idempotent f, h)

  -- What `NormalizeSubmission` accepts is trimmed in every text, filled in where a field is
  -- required, and has a
  -- product.
  pub normalize_submission-IsNormal :
      (input : CreateInput) → normalize_submission parse_time s ≡ ok input → IsNormal input
  unfolding trim_submission
  normalize_submission-IsNormal input h =
      let (t, qs, time, list, full, same) = normalize_inv input h in
      let (filled, trimmed, count) = trim_products_inv s.products qs list in
      let k = IsComplete-of_Parsed input (t, qs, time, list, full, same) in
      rw same (record {
        products = trimmed;
        some_product = count ∙ k.some_product;
        work_order_id = trim_filled s.work_order_id k.work_order_id;
        customer_name = trim_filled s.customer_name k.customer_name;
        customer_email = trim_filled s.customer_email k.customer_email;
        service_date = trim_filled s.service_date k.service_date;
        service_expiration_date = trim_filled s.service_expiration_date k.service_expiration_date;
        service_type = trim_filled s.service_type k.service_type;
        notes = trim_space_idempotent s.notes;
        signature = trim_filled s.signature_image_base64 k.signature;
        technician = trim_filled s.signed_by_technician_id k.technician;
      })

trim_products_of_trimmed : (ps : List Text) → All IsTrimmed ps → trim_products ps ≡ some ps
unfolding trim_products
trim_products_of_trimmed [] h = refl
trim_products_of_trimmed (p ∷ ps) h = ground (arith, trim_products_of_trimmed ps h.1, h.0.0, h.0.1)

-- The submission that says what an input says, signed at a time given as text.
abbrev pub as_submission : CreateInput → Text → Submission
as_submission i signed_at = record {
  work_order_id = i.work_order_id;
  customer_name = i.customer_name;
  customer_email = i.customer_email;
  service_date = i.service_date;
  service_expiration_date = i.service_expiration_date;
  service_type = i.service_type;
  products = i.products;
  notes = i.notes;
  approved = i.approved;
  signature_image_base64 = i.signature_image_base64;
  signed_at = signed_at;
  signed_by_technician_id = i.signed_by_technician_id;
}

-- A normal input comes back unchanged from `NormalizeSubmission`, with no organization, if its time
-- is written so that it is read back.
pub normalize_submission_fixed :
    (parse_time : Text → Option ℕ) (i : CreateInput) (signed_at : Text)
    → IsNormal i
    → parse_time (trim_space signed_at) ≡ some i.signed_at
    → normalize_submission parse_time (as_submission i signed_at)
      ≡ ok (record i { organization_id = [] })
unfolding normalize_submission trim_submission lacks_field
normalize_submission_fixed parse_time i signed_at n time =
    let list = trim_products_of_trimmed i.products n.products in ground arith
