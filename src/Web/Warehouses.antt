-- ===== src/Web/Warehouses.antt =====
-- The warehouse id of an allocation, from the gRPC reply into a query of the HTTP API.
use inventory_service.Base.{GoString, ℤ, pos, leb_ℤ, IsInt64, ◌≡◌, false, some, [], ◌∷◌}
use inventory_service.Domain.Types.{Allocation}
use inventory_service.Domain.Hash.{format_int}
use inventory_service.Transport.Server.{wire_allocation}
use inventory_service.Base.{parse_int}
use inventory_service.Domain.RoundTrip.{parse_int-format_int}
use inventory_service.Web.Handlers.{warehouse_param}

warehouse_param_of_int :
    (s : GoString) (w : ℤ)
    → parse_int s ≡ some w
    → leb_ℤ w (pos 0) ≡ false
    → warehouse_param s ≡ some w
unfolding warehouse_param parse_int
warehouse_param_of_int [] w h p = cc
warehouse_param_of_int (c ∷ cs) w h p = rw (h, warehouse_param, p)

-- The warehouse id that gRPC writes for an allocation, passed back as the query warehouse_id, is
-- read as the id of that warehouse, if the id is a positive int64.
pub warehouse_param-wire_allocation :
    (a : Allocation)
    → IsInt64 a.warehouse_id
    → leb_ℤ a.warehouse_id (pos 0) ≡ false
    → warehouse_param (wire_allocation a).warehouse_id ≡ some a.warehouse_id
warehouse_param-wire_allocation a i p =
    warehouse_param_of_int (format_int a.warehouse_id) a.warehouse_id
      (parse_int-format_int a.warehouse_id i) p
