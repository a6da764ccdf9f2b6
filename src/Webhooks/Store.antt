-- ===== src/Webhooks/Store.antt =====
-- Store of internal/webhooks/webhooks.go.
use git_castle.Webhooks.Types.{Delivery, Hook, HookRow, DeliveryRow}
use git_castle.Prelude.{
  zero, suc, delete, [], ◌∷◌, ◌==◌, none, ltb, filter, ◌++◌, ◌&&◌, true, some, any, leb,
  if◌then◌else◌, eqb, List, String, Bool, ℕ,
}
use git_castle.Exec.{statement, Exec}
use git_castle.Db.{Db}
use git_castle.Errors.{plain, err, ok}
use mathlib.Core.List.{map}
use git_castle.Prelude.Order.{sort_by}
use git_castle.Prelude.Text.{is_some}

abbrev pub new_hook : ℕ → String → String → List String → Hook
new_hook id url secret events = record { id = id; url = url; secret = secret; events = events }

unfoldable pub insert_hook : ℕ → String → String → List String → Exec Hook
insert_hook repo url secret events s =
    let hook = new_hook s.hook_seq url secret events in
    let row : HookRow = record { repository_id = repo; hook = hook; active = true } in
    (ok hook, record s { hooks = s.hooks ++ row ∷ []; hook_seq = suc s.hook_seq })

-- CreateHook
unfoldable pub create_hook : ℕ → String → String → List String → Exec Hook
create_hook repo url secret events = statement "insert webhook" (insert_hook repo url secret events)

-- WHERE repository_id = $1 AND active, and events @> {$2} if an event is given
abbrev pub subscribes : ℕ → String → HookRow → Bool
subscribes repo event row =
    eqb row.repository_id repo
    && row.active
    && (if event == "" then true else any (λ e. e == event) row.hook.events)

abbrev pub matching : ℕ → String → Db → List Hook
matching repo event s = map (λ row. row.hook) (filter (subscribes repo event) s.hooks)

-- ListHooks, and ListAllHooks for the empty event
unfoldable pub list_hooks : ℕ → String → Exec (List Hook)
list_hooks repo event = statement "list webhooks" λ s. (ok (matching repo event s), s)

abbrev pub is_hook : ℕ → ℕ → HookRow → Bool
is_hook repo id row = eqb row.repository_id repo && eqb row.hook.id id

pub remove_hook : ℕ → ℕ → Exec (Unit {0})
remove_hook repo id s = (
  if any (is_hook repo id) s.hooks then ok tt else err (plain "webhook not found"),
  record s { hooks = delete (is_hook repo id) s.hooks },
)

-- DeleteHook
pub delete_hook : ℕ → ℕ → Exec (Unit {0})
delete_hook repo id = statement "delete webhook" (remove_hook repo id)

abbrev pub is_success : ℕ → Bool
is_success status = leb 200 status && ltb status 300

abbrev pub delivery_row : ℕ → ℕ → ℕ → String → String → ℕ → DeliveryRow
delivery_row id now hook event payload status = record {
  id = id;
  webhook_id = hook;
  event_type = event;
  payload = payload;
  status = status;
  attempts = 1;
  delivered_at = if is_success status then some now else none;
  created_at = now;
}

unfoldable pub insert_delivery : ℕ → String → String → ℕ → Exec (Unit {0})
insert_delivery hook event payload status s =
    let row = delivery_row s.delivery_seq s.clock hook event payload status in
    (ok tt, record s { deliveries = s.deliveries ++ row ∷ []; delivery_seq = suc s.delivery_seq })

-- RecordDelivery
unfoldable pub record_delivery : ℕ → String → String → ℕ → Exec (Unit {0})
record_delivery hook event payload status =
    statement "record delivery" (insert_delivery hook event payload status)

-- JOIN webhooks w ON w.id = d.webhook_id WHERE w.repository_id = $1; ids of hooks are unique.
abbrev delivered_to : ℕ → List HookRow → DeliveryRow → Bool
delivered_to repo hooks row = any (λ h. is_hook repo row.webhook_id h) hooks

abbrev delivery_of : DeliveryRow → Delivery
delivery_of row = record {
  id = row.id;
  webhook_id = row.webhook_id;
  event_type = row.event_type;
  payload = row.payload;
  status = row.status;
  attempts = row.attempts;
  delivered = is_some row.delivered_at;
}

unfoldable first_deliveries : ℕ → List DeliveryRow → List DeliveryRow
first_deliveries zero rows = []
first_deliveries (suc n) [] = []
first_deliveries (suc n) (row ∷ rows) = row ∷ first_deliveries n rows

-- ListDeliveries: ORDER BY created_at DESC LIMIT 50
pub list_deliveries : ℕ → Exec (List Delivery)
unfolding first_deliveries
list_deliveries repo = statement "list deliveries" λ s.
    let rows = filter (delivered_to repo s.hooks) s.deliveries in
    let newest = sort_by (λ a b. ltb b.created_at a.created_at) rows in
    (ok (map delivery_of (first_deliveries 50 newest)), s)
