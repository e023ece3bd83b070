-- ===== src/Users/Context/Access.antt =====
-- Whom `RequireOrgAccess` of internal/users/context.go admits, and what handlers find behind it.
use mathlib.Core.List.{Memᴰ}
use mathlib.Core.Option
use tecora_be.Prelude.{
  ℕ, ◌≡◌, refl, sym, ◌∙◌, ap, ◌⊎◌, inl, inr, true, false, not, ◌&&◌, Option, none, some, arith,
  is_empty, Bool-cases, Option-cases,
}
use tecora_be.Text.{Text, text_eq, trim_space}
use tecora_be.Text.Trim.{text_eq_iff}
use tecora_be.Db.{OrganizationRow, UserRow, Error, Result, ok, err, Tables, Db, Result-cases}
use tecora_be.Db.Table.{select_first, select_first_sound, select_first-mem}
use tecora_be.Db.Answers.{query_server, finish_ok, returning_ok}
use tecora_be.Organizations.Model.{is_none}
use tecora_be.Organizations.Slug.{normalize_slug}
use tecora_be.Users.Model.{User, scan_user}
use tecora_be.Users.Repository.{
  get_by_clerk_user_id, select_by_clerk_id, join_organization, joined, has_clerk_id, is_live,
}
use tecora_be.Users.Repository.Frame.{get_by_clerk_user_id-tables}
use tecora_be.Gin.{Claims, Key, Value, Context, set, next}
use tecora_be.Middleware.Auth.{current_claims}
use tecora_be.Users.Context.{
  refuse, admit_user, admit_result, require_org_access, current_user, current_organization,
}

-- The user is a live row of the table under the Clerk id `k`, beside the row of its organization.
pub record IsMember (t : Tables) (k : Text) (user : User) : Type 0 where
  pub row : UserRow
  pub organization : OrganizationRow
  pub listed : Memᴰ row t.users
  pub clerk_id : row.clerk_user_id ≡ k
  pub live : row.deleted_at ≡ none
  pub joined : Memᴰ organization t.organizations
  pub owner : organization.id ≡ row.organization_id
  pub same : user ≡ scan_user (row, organization)

joined_ok :
    (found : Option UserRow) (t : Tables) (x : UserRow × OrganizationRow)
    → (joined found t t).0 ≡ ok x
    → (u : UserRow) × (found ≡ some u) × (join_organization t u ≡ some x)
joined_ok none t x h = cc
joined_ok (some u) t x h =
    let (p, found, is_it, _) = returning_ok (join_organization t u) (λ p. p) t t x h in
    (u, refl, found ∙ ap some (sym is_it))

map-some :
    {A B : Type 0} (f : A → B) (o : Option A) (b : B)
    → Option.map f o ≡ some b
    → (a : A) × (o ≡ some a) × (b ≡ f a)
map-some f none b h = cc
map-some f (some a) b h = (a, refl, ground arith)

none_of_is_none : {A : Type 0} (o : Option A) → is_none o ≡ true → o ≡ none
none_of_is_none none h = refl
none_of_is_none (some a) h = cc

-- A user that `GetByClerkUserID` returns is a live member.
pub get_by_clerk_user_id-IsMember :
    (k : Text) (db : Db) (user : User)
    → (get_by_clerk_user_id k db).0 ≡ ok user
    → IsMember db.tables k user
unfolding get_by_clerk_user_id select_by_clerk_id join_organization
get_by_clerk_user_id-IsMember k db user h =
    let (x, told, same, _) = finish_ok _ scan_user (select_by_clerk_id k) db user h in
    let chosen = λ (u : UserRow). has_clerk_id k u && is_live u in
    let (u, found, partner) = joined_ok (select_first chosen db.tables.users) db.tables x told in
    let key = λ (o : OrganizationRow). text_eq o.id u.organization_id in
    let (o, there, pair) =
      map-some (λ (o : OrganizationRow). (u, o)) (select_first key db.tables.organizations) x
        partner in
    let passed = select_first_sound chosen db.tables.users u found in
    record {
      row = u;
      organization = o;
      listed = select_first-mem chosen db.tables.users u found;
      clerk_id = ground (arith, text_eq_iff u.clerk_user_id k);
      live = none_of_is_none u.deleted_at (ground arith);
      joined = select_first-mem key db.tables.organizations o there;
      owner = (text_eq_iff _ _).0 (select_first_sound key db.tables.organizations o there);
      same = same ∙ ap scan_user pair;
    }

-- What `RequireOrgAccess` has established: verified claims with a subject, a live member under that
-- subject, an organization that is not deleted, and no other organization in the claims.
pub record IsAdmitted (fold : ℕ → ℕ) (c : Context) (t : Tables) (cl : Claims) (user : User)
    : Type 0 where
  pub claimed : current_claims c ≡ some cl
  pub subject : is_empty (trim_space cl.subject) ≡ false
  pub member : IsMember t (trim_space cl.subject) user
  pub active : user.organization.active ≡ true
  pub kept : user.organization.deleted_at ≡ none
  pub slug :
      (is_empty (normalize_slug fold (trim_space cl.org_slug)) ≡ true)
      ⊎ (normalize_slug fold (trim_space cl.org_slug) ≡ user.organization.slug)

abbrev pub admitted : User → Context → Context
admitted user c = set Key.current_organization (Value.organization user.organization) (
    set Key.current_user (Value.user (some user))
      (set Key.org_slug (Value.text user.organization.slug) c))

slug_cases :
    (s t : Text) → not (is_empty s) && not (text_eq s t) ≡ false → (is_empty s ≡ true) ⊎ (s ≡ t)
slug_cases s t h = elim (Bool-cases (is_empty s)) [
  | inl e ↦ inl e
  | inr e ↦ inr ((text_eq_iff s t).0 (ground arith))
]

module _ (fold : ℕ → ℕ) where
  admit_user_inv :
      (cl : Claims) (user : User) (c c' : Context)
      → admit_user fold cl user c ≡ next c'
      → (user.organization.active ≡ true)
        × (user.organization.deleted_at ≡ none)
        × ((is_empty (normalize_slug fold (trim_space cl.org_slug)) ≡ true)
            ⊎ (normalize_slug fold (trim_space cl.org_slug) ≡ user.organization.slug))
        × (c' ≡ admitted user c)
  unfolding admit_user
  admit_user_inv cl user c c' h =
      let slug = normalize_slug fold (trim_space cl.org_slug) in
      elim (Bool-cases (not (is_empty slug) && not (text_eq slug user.organization.slug))) [
        | inl other ↦ ground arith
        | inr fits ↦ (
          ground arith,
          none_of_is_none user.organization.deleted_at (ground arith),
          slug_cases slug user.organization.slug fits,
          ground arith,
        )
      ]

  refuse_inv : (e : Error) (c' : Context) → ¬ (refuse e ≡ next c')
  unfolding refuse
  refuse_inv e c' h = ground arith

  -- A request that `RequireOrgAccess` lets through has claims with a subject and, under that subject,
  -- a live user of an organization that is not deleted, the one that the claims name if they name
  -- one; handlers find that user, that organization and its slug in the context.
  pub require_org_access-IsAdmitted :
      (c c' : Context) (db : Db)
      → (require_org_access fold c db).0 ≡ next c'
      → (cl : Claims) × (user : User) × IsAdmitted fold c db.tables cl user × (c' ≡ admitted user c)
  unfolding require_org_access
  require_org_access-IsAdmitted c c' db h = elim (Option-cases (current_claims c)) [
    | inl absent ↦ ground arith
    | inr (cl, claimed) ↦ elim (Bool-cases (is_empty (trim_space cl.subject))) [
      | inl blank ↦ ground arith
      | inr subject ↦
          let k = trim_space cl.subject in
          elim (Result-cases (get_by_clerk_user_id k db).0) [
            | inr (e, failed) ↦ absurd (refuse_inv e c' (ground arith))
            | inl (user, read) ↦
                let (active, kept, slug, after) = admit_user_inv cl user c c' (ground arith) in
                (
                  cl,
                  user,
                  record {
                    claimed = claimed;
                    subject = subject;
                    member = get_by_clerk_user_id-IsMember k db user read;
                    active = active;
                    kept = kept;
                    slug = slug;
                  },
                  after,
                )
          ]
    ]
  ]

-- Behind `RequireOrgAccess`, `CurrentUser` and `CurrentOrganization` find the admitted user and its
-- organization, and the claims are as before.
pub admitted_lookups :
    (user : User) (c : Context)
    → (current_user (admitted user c) ≡ some user)
      × (current_organization (admitted user c) ≡ some user.organization)
      × (current_claims (admitted user c) ≡ current_claims c)
unfolding current_user current_organization current_claims set
admitted_lookups user c = (refl, refl, refl)

admit_result-tables :
    (fold : ℕ → ℕ) (cl : Claims) (c : Context) (r : Result User × Db)
    → (admit_result fold cl c r).1 ≡ r.1
admit_result-tables fold cl c (ok user, db) = refl
admit_result-tables fold cl c (err e, db) = refl

-- `RequireOrgAccess` reads the database and leaves it alone.
pub require_org_access-server :
    (fold : ℕ → ℕ) (c : Context) (db : Db) → (require_org_access fold c db).1.server ≡ db.server
unfolding require_org_access get_by_clerk_user_id
require_org_access-server fold c db = elim (Option-cases (current_claims c)) [
  | inl absent ↦ rw (absent, require_org_access) refl
  | inr (cl, claimed) ↦
      let k = trim_space cl.subject in
      let same =
        ap (λ (d : Db). d.server) (admit_result-tables fold cl c (get_by_clerk_user_id k db))
        ∙ query_server (select_by_clerk_id k) db in
      elim (Bool-cases (is_empty k)) [ inl blank ↦ ground arith | inr given ↦ ground arith ]
]

pub require_org_access-tables :
    (fold : ℕ → ℕ) (c : Context) (db : Db) → (require_org_access fold c db).1.tables ≡ db.tables
unfolding require_org_access
require_org_access-tables fold c db = elim (Option-cases (current_claims c)) [
  | inl absent ↦ rw (absent, require_org_access) refl
  | inr (cl, claimed) ↦
      let k = trim_space cl.subject in
      let same =
        ap (λ (d : Db). d.tables) (admit_result-tables fold cl c (get_by_clerk_user_id k db))
        ∙ get_by_clerk_user_id-tables db k in
      elim (Bool-cases (is_empty k)) [ inl blank ↦ ground arith | inr given ↦ ground arith ]
]
