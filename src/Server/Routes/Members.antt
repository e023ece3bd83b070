-- ===== src/Server/Routes/Members.antt =====
-- What the handlers behind the routes for members keep.
use tecora_be.Prelude.{
  ℕ, ◌≡◌, refl, ap, ◌∙◌, Bool, true, false, Option, none, some, is_empty, not, if◌then◌else◌,
}
use tecora_be.Text.{Text, text_eq, trim_space}
use tecora_be.Db.{AcceptanceRow, Result, ok, err, Tables, Db}
use tecora_be.Gin.{Context}
use tecora_be.Organizations.Model.{Organization}
use tecora_be.Users.Context.{current_organization}
use tecora_be.Acceptances.Model.{Submission, PdfDocument}
use tecora_be.Acceptances.Storage.{Bucket, download}
use tecora_be.Acceptances.Repository.{get_by_id}
use tecora_be.Acceptances.Repository.Reading.{get_by_id-tables}
use tecora_be.Acceptances.Service as AcceptanceService
use tecora_be.Acceptances.Service.{
  Service, World, after_get, after_ready, after_download, ready_key,
}
use tecora_be.Acceptances.Handler as AcceptanceHandler
use tecora_be.Acceptances.Handler.{Origin}
use tecora_be.WorkOrders.Model.{CreateRequest, CreateInput, normalize_create_request}
use tecora_be.WorkOrders.Repository as WorkOrderRepository
use tecora_be.WorkOrders.Repository.Frame as WorkOrderFrame
use tecora_be.WorkOrders.Handler as WorkOrderHandler
use tecora_be.Server.Routes.{MemberRoute, run_member}

-- What holds before a member's request holds after each of the two calls that write, with the
-- organization of the context.
pub record IsKept {κ} (P : Tables → Type κ) (s : Service) (c : Context) (w : World) : Type κ where
  pub before : P w.db.tables
  pub orders :
      (org : Organization) (input : CreateInput)
      → current_organization c ≡ some org
      → P (WorkOrderRepository.create (record input { organization_id = org.id }) w.db).1.tables
  pub submits :
      (org : Organization) (x : Submission)
      → current_organization c ≡ some org
      → P (AcceptanceService.submit s org.id x w).1.db.tables

after_download_db : (db : Db) (d : Result PdfDocument × Bucket) → (after_download db d).1.db ≡ db
after_download_db db (ok doc, b) = refl
after_download_db db (err e, b) = refl

after_ready_db : (w : World) (key : Option Text) → (after_ready w key).1.db ≡ w.db
after_ready_db w none = refl
after_ready_db w (some key) = after_download_db w.db (download key w.bucket)

after_get_db : (w : World) (r : Result AcceptanceRow) → (after_get w r).1.db ≡ w.db
after_get_db w (ok r) = after_ready_db w (ready_key r)
after_get_db w (err e) = refl

get_pdf_db :
    (org id : Text) (w : World) → (AcceptanceService.get_pdf org id w).1.db.tables ≡ w.db.tables
unfolding AcceptanceService.get_pdf
get_pdf_db org id w =
    let read = get_by_id (trim_space org) (trim_space id) w.db in
    ap (λ (d : Db). d.tables) (after_get_db (record { db = read.1; bucket = w.bucket }) read.0)
    ∙ get_by_id-tables (trim_space org) (trim_space id) w.db

module _ {κ} (P : Tables → Type κ) where
  -- A handler that has the database and the bucket.
  abbrev Here : {A : Type 0} → A × World → Type κ
  Here r = P r.1.db.tables

  if_keeps : {A : Type 0} (b : Bool) (x y : A × World) → Here x → Here y → Here (if b then x else y)
  if_keeps true x y hx hy = hx
  if_keeps false x y hx hy = hy

  answer_keeps :
      {A B : Type 0} (n : ℕ) (f : A → B) (r : Result A × World)
      → Here r
      → Here (AcceptanceHandler.respond n f r)
  answer_keeps n f (ok a, w) h = h
  answer_keeps n f (err e, w) h = h

  option_keeps :
      {A X : Type 0} (o : Option X) (n : A × World) (f : X → A × World)
      → Here n
      → ((x : X) → o ≡ some x → Here (f x))
      → Here (elim o as (λ _. A × World) [ none ↦ n | some x ↦ f x ])
  option_keeps none n f hn hf = hn
  option_keeps (some x) n f hn hf = hf x refl

  -- A handler that has the database alone.
  abbrev HereDb : {A : Type 0} → A × Db → Type κ
  HereDb r = P r.1.tables

  respond_keeps :
      {A : Type 0} (n : ℕ) (r : Result A × Db) → HereDb r → HereDb (WorkOrderHandler.respond n r)
  respond_keeps n (ok a, db) h = h
  respond_keeps n (err e, db) h = h

  if_keeps_db :
      {A : Type 0} (b : Bool) (x y : A × Db) → HereDb x → HereDb y → HereDb (if b then x else y)
  if_keeps_db true x y hx hy = hx
  if_keeps_db false x y hx hy = hy

  option_keeps_db :
      {A X : Type 0} (o : Option X) (n : A × Db) (f : X → A × Db)
      → HereDb n
      → ((x : X) → o ≡ some x → HereDb (f x))
      → HereDb (elim o as (λ _. A × Db) [ none ↦ n | some x ↦ f x ])
  option_keeps_db none n f hn hf = hn
  option_keeps_db (some x) n f hn hf = hf x refl

  module _ (s : Service) (c : Context) (w : World) (k : IsKept P s c w) where
    same : (t : Tables) → t ≡ w.db.tables → P t
    same t e = rw e k.before

    submit_keeps :
        (param : Text) (body : Option Submission) → Here (AcceptanceHandler.submit s c param body w)
    unfolding AcceptanceHandler.submit
    submit_keeps param body = option_keeps (current_organization c) _ _ k.before (λ org here.
        if_keeps (is_empty (trim_space param)) _ _ k.before (
          option_keeps body _ _ k.before (λ req _.
            if_keeps (not (text_eq (trim_space req.work_order_id) (trim_space param))) _ _ k.before
              (answer_keeps 202 _ (AcceptanceService.submit s org.id req w)
                (k.submits org req here)))))

    get_status_keeps : (o : Origin) (param : Text) → Here (AcceptanceHandler.get_status o c param w)
    unfolding AcceptanceHandler.get_status AcceptanceService.get_status
    get_status_keeps o param = option_keeps (current_organization c) _ _ k.before (λ org here.
        if_keeps (is_empty (trim_space param)) _ _ k.before (
          answer_keeps 200 _ (AcceptanceService.get_status org.id (trim_space param) w)
            (same _ (get_by_id-tables (trim_space org.id) (trim_space (trim_space param)) w.db))))

    get_pdf_keeps : (param : Text) → Here (AcceptanceHandler.get_pdf c param w)
    unfolding AcceptanceHandler.get_pdf
    get_pdf_keeps param = option_keeps (current_organization c) _ _ k.before (λ org here.
        if_keeps (is_empty (trim_space param)) _ _ k.before (
          answer_keeps 200 _ (AcceptanceService.get_pdf org.id (trim_space param) w)
            (same _ (get_pdf_db org.id (trim_space param) w))))

    create_input_keeps :
        (org : Organization) (i : Result CreateInput)
        → current_organization c ≡ some org
        → HereDb (WorkOrderHandler.create_input org.id i w.db)
    create_input_keeps org (err e) here = k.before
    create_input_keeps org (ok input) here = respond_keeps 201 _ (k.orders org input here)

    create_keeps : (body : Option CreateRequest) → HereDb (WorkOrderHandler.create c body w.db)
    unfolding WorkOrderHandler.create
    create_keeps body = option_keeps_db (current_organization c) _ _ k.before (λ org here.
        option_keeps_db body _ _ k.before
          (λ req _. create_input_keeps org (normalize_create_request req) here))

    list_keeps : HereDb (WorkOrderHandler.list c w.db)
    unfolding WorkOrderHandler.list
    list_keeps =
        option_keeps_db (current_organization c) _ _ k.before
          (λ org here. respond_keeps 200 _ (same _ (WorkOrderFrame.list_active-tables w.db org.id)))

    get_keeps : (param : Text) → HereDb (WorkOrderHandler.get c param w.db)
    unfolding WorkOrderHandler.get
    get_keeps param = option_keeps_db (current_organization c) _ _ k.before (λ org here.
        if_keeps_db (is_empty (trim_space param)) _ _ k.before (
          respond_keeps 200 _
            (same _ (WorkOrderFrame.get_by_work_order_id-tables w.db org.id (trim_space param)))))

    -- What the two calls keep, each route for members keeps.
    pub member_keeps : (r : MemberRoute) → Here (run_member s r c w)
    unfolding run_member
    member_keeps MemberRoute.me = k.before
    member_keeps (MemberRoute.create_work_order body) = create_keeps body
    member_keeps MemberRoute.list_work_orders = list_keeps
    member_keeps (MemberRoute.get_work_order param) = get_keeps param
    member_keeps (MemberRoute.submit param body) = submit_keeps param body
    member_keeps (MemberRoute.get_status origin param) = get_status_keeps origin param
    member_keeps (MemberRoute.get_pdf param) = get_pdf_keeps param
