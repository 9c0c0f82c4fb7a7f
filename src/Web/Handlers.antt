-- ===== src/Web/Handlers.antt =====
-- The handlers of internal/web/v1/router.go, over the logic that they are given.
use inventory_service.Base.{
  ℕ, GoString, codes, text_eq, text_elem, ℤ, pos, leb_ℤ, Bool, ◌||◌, if◌then◌else◌, Option, none,
  some, List, [], ◌∷◌,
}
use inventory_service.Domain.Types.{StockCommand}
use inventory_service.Domain.Errors.{Result, ok, err}
use inventory_service.Store.Database.{Db, Env}
use inventory_service.Admin.Views.{
  BalanceView, BalanceFilter, MovementView, MovementFilter, ReservationView,
}
use inventory_service.Admin.Reads.{ListReads}
use inventory_service.Admin.Service.{
  admin_list_balances, admin_sku_balances, admin_list_movements, admin_list_reservations,
  admin_receive_stock, admin_adjust_on_hand,
}
use inventory_service.Base.{parse_int}
use inventory_service.Web.Wire.{
  code_unauthorized, code_validation, code_not_found, Response, json, respond_error, Paging,
  Paginated, ReceiptRequest, AdjustmentRequest, CommandReply, respond_admin_error,
}

-- adminLogic: what the handlers need of the logic layer.
pub record AdminLogic : Type 0 where
  pub list_balances : BalanceFilter → ℤ → ℤ → Result (List BalanceView × ℕ)
  pub sku_balances : GoString → Result (List BalanceView)
  pub list_movements : MovementFilter → ℤ → ℤ → Result (List MovementView × ℕ)
  pub list_reservations : GoString → ℤ → ℤ → Result (List ReservationView × ℕ)
  pub receive_stock : StockCommand → Db → Result Bool × Db
  pub adjust_on_hand : StockCommand → Db → Result Bool × Db

-- AdminService as that interface.
abbrev pub admin_service : Env → ListReads → AdminLogic
admin_service env reads = record {
  list_balances = λ f limit offset. (admin_list_balances reads f limit offset).0;
  sku_balances = λ s. (admin_sku_balances reads.listed s).0;
  list_movements = λ f limit offset. (admin_list_movements reads f limit offset).0;
  list_reservations = λ status limit offset. (admin_list_reservations reads status limit offset).0;
  receive_stock = λ cmd db. (admin_receive_stock env cmd db).0;
  adjust_on_hand = λ cmd db. (admin_adjust_on_hand env cmd db).0;
}

-- The query parameter warehouse_id: 0 where there is none, `none` where it is refused.
unfoldable pub warehouse_param : GoString → Option ℤ
warehouse_param [] = some (pos 0)
warehouse_param (c ∷ cs) = elim (parse_int (c ∷ cs)) [
  | none ↦ none
  | some id ↦ if leb_ℤ id (pos 0) then none else some id
]

-- The answer of a list.
abbrev pub paginated : {A : Type 0} → Paging → Result (List A × ℕ) → Response (Paginated A)
paginated p (err e) = respond_admin_error e
paginated p (ok (items, total)) =
    json 200 (record { items = items; page = p.page; page_size = p.page_size; total = total })

-- validReservationStatuses
abbrev pub valid_reservation_statuses : List GoString
valid_reservation_statuses =
    codes "reserved" ∷ codes "committed" ∷ codes "released" ∷ codes "expired" ∷ []

-- respondCommand
unfoldable pub respond_command : GoString → Bool → Response CommandReply
respond_command command_id applied =
    json (if applied then 201 else 200) (record { command_id = command_id; applied = applied })

abbrev pub command_response : GoString → Result Bool → Response CommandReply
command_response command_id (err e) = respond_admin_error e
command_response command_id (ok applied) = respond_command command_id applied

-- What a bound receipt asks for.
abbrev pub receipt_command : GoString → ReceiptRequest → StockCommand
receipt_command sub req = record {
  command_id = req.command_id;
  sku_id = req.sku_id;
  warehouse_id = req.warehouse_id;
  quantity = req.quantity;
  reason = req.reason;
  actor = sub;
}

-- What a bound adjustment asks for.
abbrev pub adjustment_command : GoString → AdjustmentRequest → StockCommand
adjustment_command sub req = record {
  command_id = req.command_id;
  sku_id = req.sku_id;
  warehouse_id = req.warehouse_id;
  quantity = req.delta;
  reason = req.reason;
  actor = sub;
}

module _ (logic : AdminLogic) where
  -- Handler.ListBalances: the queries sku_id, low_stock and warehouse_id
  unfoldable pub get_balances :
      Paging → GoString → GoString → GoString → Response (Paginated BalanceView)
  get_balances p sku low_stock warehouse = elim (warehouse_param warehouse) [
    | none ↦ respond_error 400 code_validation
    | some id ↦ paginated p (
        logic.list_balances
          (record {
            sku_id = sku;
            warehouse_id = id;
            low_stock_only = text_eq low_stock (codes "true");
          })
          p.page_size (p.offset p.page p.page_size))
  ]

  -- Handler.SKUBalances
  unfoldable pub get_sku_balances : GoString → Response (List BalanceView)
  get_sku_balances sku = elim (logic.sku_balances sku) [
    | err e ↦ respond_admin_error e
    | ok [] ↦ respond_error 404 code_not_found
    | ok (b ∷ bs) ↦ json 200 (b ∷ bs)
  ]

  -- Handler.ListMovements
  unfoldable pub get_movements : Paging → GoString → GoString → Response (Paginated MovementView)
  get_movements p sku warehouse = elim (warehouse_param warehouse) [
    | none ↦ respond_error 400 code_validation
    | some id ↦ paginated p (
        logic.list_movements (record { sku_id = sku; warehouse_id = id }) p.page_size
          (p.offset p.page p.page_size))
  ]

  -- Handler.ListReservations
  unfoldable pub get_reservations : Paging → GoString → Response (Paginated ReservationView)
  get_reservations p status =
      if text_eq status [] || text_elem status valid_reservation_statuses
      then paginated p (logic.list_reservations status p.page_size (p.offset p.page p.page_size))
      else respond_error 400 code_validation

  -- Handler.ReceiveStock: the token's subject, and the body as ShouldBindJSON binds it
  unfoldable pub post_receipts : GoString → Option ReceiptRequest → Db → Response CommandReply × Db
  post_receipts [] bound db = (respond_error 401 code_unauthorized, db)
  post_receipts (c ∷ cs) none db = (respond_error 400 code_validation, db)
  post_receipts (c ∷ cs) (some req) db =
      let done = logic.receive_stock (receipt_command (c ∷ cs) req) db in
      if leb_ℤ req.quantity (pos 0)
      then (respond_error 400 code_validation, db)
      else (command_response req.command_id done.0, done.1)

  -- Handler.AdjustOnHand
  unfoldable pub post_adjustments :
      GoString → Option AdjustmentRequest → Db → Response CommandReply × Db
  post_adjustments [] bound db = (respond_error 401 code_unauthorized, db)
  post_adjustments (c ∷ cs) none db = (respond_error 400 code_validation, db)
  post_adjustments (c ∷ cs) (some req) db =
      let done = logic.adjust_on_hand (adjustment_command (c ∷ cs) req) db in
      (command_response req.command_id done.0, done.1)
