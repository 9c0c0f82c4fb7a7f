-- ===== src/Web/Serve.antt =====
-- Handler.mount of internal/web/v1/router.go: each route behind the authentication middlewares.
use inventory_service.Base.{ℕ, GoString, Option, none, some, List, [], ◌∷◌}
use inventory_service.Store.Database.{Db}
use inventory_service.Admin.Views.{BalanceView, MovementView, ReservationView}
use inventory_service.Web.Wire.{
  EnvelopeCode, Response, Paging, Paginated, ReceiptRequest, AdjustmentRequest, CommandReply,
}
use inventory_service.Web.Handlers.{
  AdminLogic, get_balances, get_sku_balances, get_movements, get_reservations, post_receipts,
  post_adjustments,
}

-- The mounted routes, with what their handlers read of the request.
pub data Request : Type 0 where
  balances : Paging → GoString → GoString → GoString → Request
  balances_of : GoString → Request
  movements : Paging → GoString → GoString → Request
  reservations : Paging → GoString → Request
  receipts : GoString → Option ReceiptRequest → Request
  adjustments : GoString → Option AdjustmentRequest → Request

pub data Answer : Type 0 where
  -- A middleware has aborted.
  aborted : ℕ → EnvelopeCode → Answer
  balance_page : Response (Paginated BalanceView) → Answer
  sku_rows : Response (List BalanceView) → Answer
  movement_page : Response (Paginated MovementView) → Answer
  reservation_page : Response (Paginated ReservationView) → Answer
  command : Response CommandReply → Answer

unfoldable pub route : AdminLogic → Request → Db → Answer × Db
route logic (balances p sku low_stock warehouse) db =
    (balance_page (get_balances logic p sku low_stock warehouse), db)
route logic (balances_of sku) db = (sku_rows (get_sku_balances logic sku), db)
route logic (movements p sku warehouse) db =
    (movement_page (get_movements logic p sku warehouse), db)
route logic (reservations p status) db = (reservation_page (get_reservations logic p status), db)
route logic (receipts sub bound) db =
    let done = post_receipts logic sub bound db in (command done.0, done.1)
route logic (adjustments sub bound) db =
    let done = post_adjustments logic sub bound db in (command done.0, done.1)

-- Each middleware lets the request pass, `none`, or aborts with an answer of its own.
unfoldable pub serve : AdminLogic → List (Option (ℕ × EnvelopeCode)) → Request → Db → Answer × Db
unfolding route
serve logic [] req db = route logic req db
serve logic (none ∷ rest) req db = serve logic rest req db
serve logic (some (status, code) ∷ rest) req db = (aborted status code, db)
