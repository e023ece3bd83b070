-- ===== src/WorkOrders/Tests.antt =====
-- Runs of the work order routes, and the theorems about them at concrete inputs.
use tecora_be.Prelude.{◌≡◌, refl, ◌↔◌, true, [], ◌∷◌, none, some}
use tecora_be.Text.{codes, text_eq, trim_space}
use tecora_be.Http.{reply}
use tecora_be.Db.{Date, WorkOrderRow, Db, ok, sound}
use tecora_be.Db.Table.{select_first, select_all, order_by}
use tecora_be.WorkOrders.Model.{
  CreateRequest, CreateInput, is_calendar, parse_date, is_zero, string, normalize_create_request,
}
use tecora_be.WorkOrders.Model.Dates.{parse_date-string, string-parse_date}
use tecora_be.WorkOrders.Model.Normal.{IsComplete, IsMade, normalize_create_request_iff}
use tecora_be.WorkOrders.Repository as WorkOrderRepository
use tecora_be.WorkOrders.Repository.{is_of, work_order_le, create, get_by_work_order_id}
use tecora_be.WorkOrders.Repository.Invariant.{IsValid}
use tecora_be.WorkOrders.Repository.Reading.{create-get_by_work_order_id}
use tecora_be.Users.Context.{current_organization}
use tecora_be.WorkOrders.Handler
use tecora_be.Samples.{db, tables, inside}

abbrev leap : Date
leap = record { year = 2028; month = 2; day = 29 }

reads : parse_date (codes " 2028-02-29\n") ≡ ok leap
unfolding parse_date
reads = refl

parse_date-string_example : parse_date (string leap) ≡ ok leap
parse_date-string_example =
    parse_date-string leap (unfold is_calendar in refl) (unfold is_zero in refl)

string-parse_date_example :
    (is_calendar leap ≡ true) × (string leap ≡ trim_space (codes " 2028-02-29\n"))
string-parse_date_example =
    string-parse_date (codes " 2028-02-29\n") leap reads (unfold is_zero in refl)

abbrev request : CreateRequest
request = record {
  work_order_id = codes " WO-7";
  customer_name = codes "Bob";
  customer_email = [];
  customer_phone = codes " 555 ";
  customer_address = codes "Main St";
  job_date = codes "2028-02-29";
  status = [];
}

abbrev input : CreateInput
input = record {
  organization_id = codes "o1";
  work_order_id = codes "WO-7";
  customer_name = codes "Bob";
  customer_email = none;
  customer_phone = some (codes "555");
  customer_address = codes "Main St";
  job_date = leap;
  status = none;
}

normalize_create_request_iff_example :
    (normalize_create_request request ≡ ok (record input { organization_id = [] }))
    ↔ ((d : Date) × IsComplete request d × IsMade request d (record input { organization_id = [] }))
normalize_create_request_iff_example =
    normalize_create_request_iff request (record input { organization_id = [] })

abbrev kept : WorkOrderRow
kept = record {
  id = codes "key-0";
  organization_id = codes "o1";
  work_order_id = codes "WO-7";
  customer_name = codes "Bob";
  customer_email = none;
  customer_phone = some (codes "555");
  customer_address = codes "Main St";
  job_date = leap;
  status = none;
  created_at = 100;
  updated_at = 100;
  deleted_at = none;
}

valid : IsValid tables
valid = record { ids = tt; orders = tt; owned = tt }

create_runs : (create input db).0 ≡ ok kept
unfolding create
create_runs = refl

next_answered : (create input db).1.server.fault (create input db).1.step ≡ sound
unfolding create
next_answered = refl

create-get_by_work_order_id_example :
    (get_by_work_order_id (codes "o1") (codes "WO-7") (create input db).1).0 ≡ ok kept
create-get_by_work_order_id_example =
    create-get_by_work_order_id input db kept create_runs next_answered

abbrev filled : Db
filled = record db { tables = record tables { work_orders = kept ∷ [] } }

list_runs : (Handler.list inside filled).0 ≡ reply 200 (kept ∷ [])
unfolding Handler.list current_organization WorkOrderRepository.list_active_by_organization_id
    order_by select_all text_eq
list_runs = refl

get_runs : (Handler.get inside (codes "WO-7 ") filled).0 ≡ reply 200 kept
unfolding Handler.get current_organization get_by_work_order_id select_first text_eq
get_runs = refl
