-- ===== src/Tests/Data.antt =====
-- One warehouse, a few commands, and the states that they lead to.
use inventory_service.Base.{ℕ, codes, pos, negsuc, true, false, none, some, List, [], ◌∷◌}
use inventory_service.Domain.Types.{
  Line, Allocation, ReservationRequest, StockCommand, MovementType, reserved, committed,
}
use inventory_service.Store.Rows.{Warehouse, Balance, Movement, Header, ReservationLine}
use inventory_service.Store.Database.{Db, Env, Runtime}
use inventory_service.System.Calls.{migrated}

-- A short text is its own digest, and every timestamp is read as instant 0.
abbrev pub plain : Runtime
plain = record { sha256_hex = λ s. s; parse_timestamptz = λ s. some 0 }

abbrev pub depot : List Warehouse
depot = record { id = pos 1; is_active = true } ∷ []

-- Instant `t`, nothing fails, and the scan saw `db`.
abbrev pub calm : ℕ → Db → Env
calm t db = record {
  now = t;
  begin = none;
  lock = none;
  commit = none;
  snapshot = db;
  lost_race = false;
}

abbrev pub receipt_of_ten : StockCommand
receipt_of_ten = record {
  command_id = codes "c1";
  sku_id = codes "A";
  warehouse_id = pos 1;
  quantity = pos 10;
  reason = codes "po";
  actor = codes "op";
}

abbrev pub level_of_two : StockCommand
level_of_two = record receipt_of_ten { command_id = codes "s1"; quantity = pos 2 }

abbrev pub received : Movement
received = record {
  command_id = codes "c1";
  sku_id = codes "A";
  warehouse_id = pos 1;
  type = MovementType.receive;
  on_hand_delta = pos 10;
  reserved_delta = pos 0;
  reference_type = codes "admin";
  reference_id = none;
  reason = some (codes "po");
  actor = some (codes "op");
  created_at = 5;
}

abbrev pub levelled : Movement
levelled = record received {
  command_id = codes "s1";
  type = MovementType.set_safety_stock;
  on_hand_delta = pos 0;
  created_at = 6;
}

abbrev pub ten : Balance
ten = record {
  sku_id = codes "A";
  warehouse_id = pos 1;
  on_hand = pos 10;
  reserved = pos 0;
  safety_stock = pos 0;
  version = pos 1;
  updated_at = 5;
}

abbrev pub empty : Db
empty = migrated depot

-- After the receipt.
abbrev pub stocked : Db
stocked = record empty { balances = ten ∷ []; movements = received ∷ [] }

-- After the safety stock was set.
abbrev pub levelled_db : Db
levelled_db = record empty {
  balances = record ten { safety_stock = pos 2; version = pos 2; updated_at = 6 } ∷ [];
  movements = levelled ∷ received ∷ [];
}

-- An order of three, and the plain request that carries it.
abbrev pub three : Line
three = record { sku_id = codes "A"; quantity = pos 3 }

abbrev pub request : ReservationRequest
request = record {
  id = codes "r1";
  order_id = codes "o1";
  items = three ∷ [];
  destination_region = codes "eu";
  expires_at = [];
}

abbrev pub header : Header
header = record {
  id = codes "r1";
  external_reference = codes "o1";
  request_hash = codes "A:3|dest:eu";
  status = reserved;
  expires_at = none;
  created_at = 6;
  updated_at = 6;
}

abbrev pub line : ReservationLine
line = record {
  reservation_id = codes "r1";
  sku_id = codes "A";
  warehouse_id = pos 1;
  quantity = pos 3;
}

abbrev pub hold : Movement
hold = record {
  command_id = codes "res:r1:A";
  sku_id = codes "A";
  warehouse_id = pos 1;
  type = MovementType.reserve;
  on_hand_delta = pos 0;
  reserved_delta = pos 3;
  reference_type = codes "reservation";
  reference_id = some (codes "r1");
  reason = none;
  actor = none;
  created_at = 6;
}

abbrev pub seven_free : Balance
seven_free = record ten { reserved = pos 3; version = pos 2; updated_at = 6 }

-- After the hold.
abbrev pub held_db : Db
held_db = record stocked {
  balances = seven_free ∷ [];
  reservations = header ∷ [];
  lines = line ∷ [];
  movements = hold ∷ received ∷ [];
}

abbrev pub allocation : Allocation
allocation = record { sku_id = codes "A"; warehouse_id = pos 1; quantity = pos 3 }

abbrev pub sold : Movement
sold = record hold {
  command_id = codes "cmt:r1:A";
  type = MovementType.sale_committed;
  on_hand_delta = negsuc 2;
  reserved_delta = negsuc 2;
  created_at = 7;
}

-- After the sale.
abbrev pub sold_db : Db
sold_db = record held_db {
  balances = record ten { on_hand = pos 7; reserved = pos 0; version = pos 3; updated_at = 7 } ∷ [];
  reservations = record header { status = committed; updated_at = 7 } ∷ [];
  movements = sold ∷ hold ∷ received ∷ [];
}
