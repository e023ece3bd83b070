-- ===== src/Samples.antt =====
-- Concrete data for the tests and the examples: a server that answers every statement, two
-- organizations, a user, a bucket that takes everything, a signed form, and what Clerk sends.
use tecora_be.Prelude.{ℕ, ◌+◌, true, false, [], ◌∷◌, ◌++◌, none, some}
use tecora_be.Prelude.Int.{ℤ}
use tecora_be.Text.{codes}
use tecora_be.Db.{OrganizationRow, UserRow, Server, Tables, Db, sound, ok}
use tecora_be.Gin.{Audience, Claims, Context, Value}
use tecora_be.Middleware.Auth.{TokenVerifier, claims}
use tecora_be.Clerk.Jwks.{Codec, Readings, Cache, JwksKey, answered}
use tecora_be.Clerk.Verifier.{ClerkConfig}
use tecora_be.Acceptances.Model.{Submission, CreateInput, PdfDocument}
use tecora_be.Acceptances.Storage.{Bucket, handled}
use tecora_be.Acceptances.Service.{Service, World}

abbrev pub plain_fold : ℕ → ℕ
plain_fold c = c

abbrev pub server : Server
server = record {
  now = λ n. 100 + n;
  gen_random_uuid = λ n. codes "key-" ++ (48 + n) ∷ [];
  parse_uuid = λ s. some s;
  decode = λ s. some s;
  is_simple = false;
  collate_le = λ _ _. true;
  fault = λ _. sound;
}

abbrev pub alpha : OrganizationRow
alpha = record {
  id = codes "o1";
  slug = codes "demo-alpha";
  name = codes "Demo Alpha";
  created_at = 1;
  updated_at = 1;
  deleted_at = none;
}

abbrev pub beta : OrganizationRow
beta = record {
  id = codes "o2";
  slug = codes "demo-beta";
  name = codes "Demo Beta";
  created_at = 1;
  updated_at = 2;
  deleted_at = some 2;
}

abbrev pub ann : UserRow
ann = record {
  id = codes "u1";
  clerk_user_id = codes "user_ann";
  email = some (codes "ann@example.com");
  first_name = none;
  last_name = none;
  organization_id = codes "o1";
  created_at = 3;
  updated_at = 3;
  deleted_at = none;
}

abbrev pub tables : Tables
tables = record {
  organizations = alpha ∷ beta ∷ [];
  users = ann ∷ [];
  customers = [];
  acceptances = [];
  work_orders = [];
}

abbrev pub db : Db
db = record { server = server; step = 0; tables = tables }

abbrev pub ann_claims : Claims
ann_claims = record {
  subject = codes " user_ann";
  issuer = codes "https://clerk";
  audience = Audience.single (codes "api");
  expiry = ℤ.pos 2000;
  not_before = ℤ.pos 0;
  subject_id = codes "s1";
  org_slug = codes "Demo-Alpha ";
}

abbrev pub verifier : TokenVerifier
verifier = record { enabled = true; verify = λ _. claims ann_claims }

abbrev pub context : Context
context = record {
  request = record {
    authorization = codes "bearer abc";
    origin = codes "https://a.example";
    is_options = false;
  };
  keys = λ _. none;
}

abbrev pub bucket : Bucket
bucket = record { token = λ _. ok (codes "t"); delivery = λ _. handled; step = 0; objects = [] }

abbrev pub pdf : PdfDocument
pdf = record { bytes = 37 ∷ 80 ∷ []; content_type = codes "application/pdf" }

abbrev pub service : Service
service = record {
  parse_time = λ _. some 7;
  render = λ _. ok pdf;
  message = λ _. codes "no";
  document_prefix = codes "docs";
}

abbrev pub world : World
world = record { db = db; bucket = bucket }

abbrev pub form : Submission
form = record {
  work_order_id = codes "WO-1";
  customer_name = codes "Bob ";
  customer_email = codes "bob@example.com";
  service_date = codes "2026-01-02";
  service_expiration_date = codes "2027-01-02";
  service_type = codes "inspection";
  products = codes " hose" ∷ [];
  notes = [];
  approved = true;
  signature_image_base64 = codes "aGk=";
  signed_at = codes "2026-01-02T03:04:05Z";
  signed_by_technician_id = codes "t1";
}

-- The form, normalised.
abbrev pub input : CreateInput
input = record {
  organization_id = [];
  work_order_id = codes "WO-1";
  customer_name = codes "Bob";
  customer_email = codes "bob@example.com";
  service_date = codes "2026-01-02";
  service_expiration_date = codes "2027-01-02";
  service_type = codes "inspection";
  products = codes "hose" ∷ [];
  notes = [];
  approved = true;
  signature_image_base64 = codes "aGk=";
  signed_at = 7;
  signed_by_technician_id = codes "t1";
}

-- The context of a request of the organization `alpha`.
abbrev pub inside : Context
inside = record context {
  keys = λ _. some (
      Value.organization (record {
        id = codes "o1";
        slug = codes "demo-alpha";
        name = codes "Demo Alpha";
        active = true;
        created_at = 1;
        updated_at = 1;
        deleted_at = none;
      }));
}

abbrev pub clerk_config : ClerkConfig
clerk_config = record {
  issuer_url = codes "https://clerk";
  jwks_url = codes "https://jwks";
  audience = codes "api";
}

abbrev pub clerk_codec : Codec
clerk_codec = record {
  decode_base64 = λ s. some s;
  read_header = λ _. some (record { alg = codes "RS256"; kid = codes "k1"; typ = codes "JWT" });
  read_claims = λ _. some ann_claims;
  is_signed = λ _ _ _. true;
}

abbrev pub clerk_key : JwksKey
clerk_key = record {
  kid = codes "k1";
  kty = codes "RSA";
  alg = [];
  usage = [];
  n = 5 ∷ [];
  e = 1 ∷ 0 ∷ 1 ∷ [];
}

abbrev pub readings : Readings
readings = record {
  looked_at = 1000;
  fetch = answered 200 (some (clerk_key ∷ []));
  fetched_at = 1001;
  expiry_at = 1002;
  not_before_at = 1003;
}

abbrev pub no_keys : Cache
no_keys = record { cached_at = 0; keys = [] }

abbrev pub signed_request : Context
signed_request = record context {
  request = record context.request { authorization = codes "Bearer h.p.s" };
}
