-- ===== src/Catalog/Tests.antt =====
-- The catalog row of a small table.
use sqlyt.Base.{◌≡◌, arith, [], ◌∷◌}
use sqlyt.Page.{zero_page}
use sqlyt.Table.{Text}
use sqlyt.Catalog.{catalog_write_value, catalog_read_value}
use sqlyt.Catalog.Reads.{IsText, empty, byte, catalog_read_value-write}

-- `user`
abbrev user_name : Text
user_name = 117 ∷ 115 ∷ 101 ∷ 114 ∷ []

-- `1|id|1|0`
abbrev user_schema : Text
user_schema = 49 ∷ 124 ∷ 105 ∷ 100 ∷ 124 ∷ 49 ∷ 124 ∷ 48 ∷ []

user_name-IsText : IsText user_name
user_name-IsText =
    byte (omega arith) (byte (omega arith) (byte (omega arith) (byte (omega arith) empty)))

user_schema-IsText : IsText user_schema
user_schema-IsText = byte (omega arith) (
    byte (omega arith) (
      byte (omega arith) (
        byte (omega arith) (
          byte (omega arith)
            (byte (omega arith) (byte (omega arith) (byte (omega arith) empty)))))))

catalog_read_value-write_example :
    catalog_read_value (catalog_write_value 2 user_name user_schema zero_page) 0 513
    ≡ (2, user_name, user_schema)
catalog_read_value-write_example =
    catalog_read_value-write 2 user_name user_schema zero_page 513 (omega arith) user_name-IsText
      (omega arith) user_schema-IsText (omega arith) (omega arith)
