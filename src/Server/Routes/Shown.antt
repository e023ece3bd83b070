-- ===== src/Server/Routes/Shown.antt =====
-- What the routes for members of internal/server/server.go show.
use mathlib.Core.Path.{ap₂}
use mathlib.Core.List.{Permᴰ}
use tecora_be.Prelude.{ℕ, ◌≡◌, refl, sym, ap, ◌∙◌, inl, inr, List, some, arith}
use tecora_be.Text.{Text, trim_space}
use tecora_be.Http.{Body, json, error, no_body, Response, reply, reply_error}
use tecora_be.Db.{AcceptanceRow, WorkOrderRow, Server, Db, ok}
use tecora_be.Db.Table.{select_all, select_first}
use tecora_be.Db.Order.{IsOrdered}
use tecora_be.Organizations.Model.{Organization}
use tecora_be.Gin.{Claims, Context}
use tecora_be.Middleware.Auth.Guards.{with_claims}
use tecora_be.Users.Model.{User}
use tecora_be.Users.Context.{current_organization}
use tecora_be.Users.Context.Access.{admitted, admitted_lookups}
use tecora_be.Acceptances.Model.{PdfDocument, status_response}
use tecora_be.Acceptances.Repository.{is_record}
use tecora_be.Acceptances.Storage.{download}
use tecora_be.Acceptances.Service.{Service, World}
use tecora_be.Acceptances.Handler as AcceptanceHandler
use tecora_be.Acceptances.Handler.{Origin, Inline, inline, pdf_url}
use tecora_be.Acceptances.Handler.Tenant.{IsOwn, IsReady, get_status-IsOwn, get_pdf-IsOwn}
use tecora_be.WorkOrders.Repository.{is_of, work_order_le}
use tecora_be.WorkOrders.Handler as WorkOrderHandler
use tecora_be.WorkOrders.Handler.Tenant.{IsCaller, IsAsked, list-IsCaller, get-IsAsked}
use tecora_be.Server.Routes.{App, Route, MemberRoute, Payload, wrap, wrap_body, run_member, serve}
use tecora_be.Server.Routes.Guarded.{IsMemberRequest, serve-IsMemberRequest}
use tecora_be.Server.Routes.Isolation.{key_of}

-- The routes that read.
pub data Reading : Type 0 where
  list_work_orders : Reading
  get_work_order : Text → Reading
  get_status : Origin → Text → Reading
  get_pdf : Text → Reading

abbrev pub route_of : Reading → MemberRoute
route_of list_work_orders = MemberRoute.list_work_orders
route_of (get_work_order param) = MemberRoute.get_work_order param
route_of (get_status origin param) = MemberRoute.get_status origin param
route_of (get_pdf param) = MemberRoute.get_pdf param

-- The stored record of an organization that the path names.
pub record IsStored (w : World) (key param : Text) (r : AcceptanceRow) : Type 0 where
  pub owner : r.organization_id ≡ key
  pub asked : w.db.server.parse_uuid (trim_space param) ≡ some r.id
  pub stored : select_first (is_record r.organization_id r.id) w.db.tables.acceptances ≡ some r

-- What a route shows of the organization with a key.
abbrev pub Shows : World → Text → Reading → Payload → Type 0
Shows w key list_work_orders p =
    (ws : List WorkOrderRow) × (p ≡ Payload.work_order_list ws)
    × Permᴰ ws (select_all (is_of key) w.db.tables.work_orders)
    × IsOrdered work_order_le ws
Shows w key (get_work_order param) p =
    (o : WorkOrderRow) × (p ≡ Payload.work_order o) × IsAsked w.db key param o
Shows w key (get_status origin param) p =
    (r : AcceptanceRow) × IsStored w key param r
    × (p ≡ Payload.status (status_response r (pdf_url origin r)))
Shows w key (get_pdf param) p =
    (r : AcceptanceRow) × (name : Text) × (doc : PdfDocument) × IsStored w key param r
    × IsReady r name
    × ((download name w.bucket).0 ≡ ok doc)
    × (p ≡ Payload.document (inline (trim_space param) doc))

body_inv :
    {A : Type 0} (f : A → Payload) (b : Body A) (p : Payload)
    → wrap_body f b ≡ json p
    → (a : A) × (b ≡ json a) × (p ≡ f a)
body_inv f (json a) p h = (a, refl, ground arith)
body_inv f (error message) p h = ground arith
body_inv f no_body p h = ground arith

wrap_inv :
    {A : Type 0} (f : A → Payload) (x : Response A) (n : ℕ) (p : Payload)
    → wrap f x ≡ reply n p
    → (a : A) × (x ≡ reply n a) × (p ≡ f a)
wrap_inv f x n p h =
    let (a, sent, same) = body_inv f x.body p (ap (λ (y : Response Payload). y.body) h) in
    let status : x.status ≡ n = ap (λ (y : Response Payload). y.status) h in
    (a, ap₂ (λ s b. record { status = s; body = b }) status sent, same)

-- The organization of the context is that of the user.
module _ (user : User) (c : Context) (w : World) where
  owner :
      (org : Organization)
      → current_organization (admitted user c) ≡ some org
      → user.organization ≡ org
  owner org here = ground (arith, (admitted_lookups user c).1)

  caller_key : (key : Text) → IsCaller (admitted user c) w.db key → key_of w user ≡ some key
  caller_key key (org, here, read) =
      ap (λ (o : Organization). w.db.server.parse_uuid (trim_space o.id)) (owner org here) ∙ read

  own_record :
      (param : Text) (r : AcceptanceRow)
      → IsOwn (admitted user c) w.db param r
      → (key_of w user ≡ some r.organization_id) × IsStored w r.organization_id param r
  own_record param r (org, here, found) = (
    ap (λ (o : Organization). w.db.server.parse_uuid (trim_space o.id)) (owner org here)
        ∙ found.organization,
    record { owner = refl; asked = found.key; stored = found.stored },
  )

  shows :
      (s : Service) (r : Reading) (p : Payload)
      → (run_member s (route_of r) (admitted user c) w).0 ≡ reply 200 p
      → (key : Text) × (key_of w user ≡ some key) × Shows w key r p
  unfolding run_member
  shows s list_work_orders p h =
      let (ws, sent, same) =
        wrap_inv Payload.work_order_list (WorkOrderHandler.list (admitted user c) w.db).0 200 p h in
      let (key, mine, exact, ordered) = list-IsCaller (admitted user c) w.db ws sent in
      (key, caller_key key mine, (ws, same, exact, ordered))
  shows s (get_work_order param) p h =
      let (o, sent, same) =
        wrap_inv Payload.work_order (WorkOrderHandler.get (admitted user c) param w.db).0 200 p h in
      let (key, mine, asked) = get-IsAsked (admitted user c) param w.db o sent in
      (key, caller_key key mine, (o, same, asked))
  shows s (get_status origin param) p h =
      let (v, sent, same) =
        wrap_inv Payload.status (AcceptanceHandler.get_status origin (admitted user c) param w).0
          200 p h in
      let (r, own, made) = get_status-IsOwn origin (admitted user c) param w v sent in
      let (key, stored) = own_record param r own in
      (r.organization_id, key, (r, stored, same ∙ ap Payload.status made))
  shows s (get_pdf param) p h =
      let (v, sent, same) =
        wrap_inv Payload.document (AcceptanceHandler.get_pdf (admitted user c) param w).0 200 p h in
      let (r, name, doc, own, ready, delivered, made) =
        get_pdf-IsOwn (admitted user c) param w v sent in
      let (key, stored) = own_record param r own in
      (
        r.organization_id,
        key,
        (r, name, doc, stored, ready, delivered, same ∙ ap Payload.document made),
      )

IsAsked-kept :
    (db db' : Db) (key param : Text) (o : WorkOrderRow)
    → db'.tables ≡ db.tables
    → IsAsked db' key param o
    → IsAsked db key param o
IsAsked-kept db db' key param o same a = record {
  stored = rw (← same) a.stored;
  owner = a.owner;
  order = a.order;
  live = a.live;
}

-- The middlewares leave what is shown alone.
module _ (w w' : World) (tables : w'.db.tables ≡ w.db.tables) (server : w'.db.server ≡ w.db.server)
    (bucket : w'.bucket ≡ w.bucket) where
  IsStored-kept :
      (key param : Text) (r : AcceptanceRow) → IsStored w' key param r → IsStored w key param r
  IsStored-kept key param r s = record {
    owner = s.owner;
    asked = rw (← server) s.asked;
    stored = rw (← tables) s.stored;
  }

  Shows-kept : (key : Text) (r : Reading) (p : Payload) → Shows w' key r p → Shows w key r p
  Shows-kept key list_work_orders p (ws, same, exact, ordered) =
      (ws, same, rw (← tables) exact, ordered)
  Shows-kept key (get_work_order param) p (o, same, asked) =
      (o, same, IsAsked-kept w.db w'.db key param o tables asked)
  Shows-kept key (get_status origin param) p (r, stored, same) =
      (r, IsStored-kept key param r stored, same)
  Shows-kept key (get_pdf param) p (r, name, doc, stored, ready, delivered, same) =
      (r, name, doc, IsStored-kept key param r stored, ready, rw (← bucket) delivered, same)

error_not_sent :
    (status n : ℕ) (message : _) (p : Payload) → ¬ (reply_error status message ≡ reply n p)
error_not_sent status n message p h = ground arith

-- If a route for members that reads answers 200, the request bears a verified token of a live member
-- of an organization that is not deleted, and all that is shown is of this organization: its work
-- orders that are not deleted, all of them and in order; the one that the path names; the stored
-- acceptance with the id in the path; or the document that the storage service has under the name
-- in that acceptance.
pub serve-Shows :
    (app : App) (c : Context) (r : Reading) (w : World) (p : Payload)
    → (serve app c (Route.member (route_of r)) w).0 ≡ reply 200 p
    → (cl : Claims) × (user : User) × (key : Text) × IsMemberRequest app c w.db.tables cl user
      × (key_of w user ≡ some key)
      × Shows w key r p
serve-Shows app c r w p h = elim (serve-IsMemberRequest app c w (route_of r)) [
  | inl refused ↦
      absurd (error_not_sent refused.status 200 refused.message p (sym refused.answer ∙ h))
  | inr (cl, user, w', facts, tables, server, bucket, ran) ↦
      let sent = ap (λ (a : Response Payload × World). a.0) (sym ran) ∙ h in
      let (key, mine, shown) = shows user (with_claims cl c) w' app.service r p sent in
      let here : key_of w' user ≡ key_of w user =
        ap (λ (sv : Server). sv.parse_uuid (trim_space user.organization.id)) server in
      (cl, user, key, facts, sym here ∙ mine, Shows-kept w w' tables server bucket key r p shown)
]
