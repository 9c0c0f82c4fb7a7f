-- ===== src/Domain/Validate.antt =====
-- StockCommand.Validate of internal/core/domain/inventory.go.
use inventory_service.Base.{text_eq, [], pos, leb_ℤ, not, leb, length}
use inventory_service.Domain.Types.{StockCommand}
use inventory_service.Domain.Errors.{Result, invalid_input, require, ◌>>◌}

unfoldable pub validate : StockCommand → Result (Unit {0})
validate c = do
  require (not (text_eq c.command_id [])) invalid_input
  require (leb (length c.command_id) 255) invalid_input
  require (not (text_eq c.sku_id [])) invalid_input
  require (leb (length c.sku_id) 64) invalid_input
  require (not (leb_ℤ c.warehouse_id (pos 0))) invalid_input
  require (leb (length c.actor) 64) invalid_input
