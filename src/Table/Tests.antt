-- ===== src/Table/Tests.antt =====
-- The layout of a small table.
use sqlyt.Base.{◌-◌, ◌<◌, ◌≡◌, refl, true, some, [], ◌∷◌, arith}
use sqlyt.Page.{u32_mod}
use sqlyt.Node.{leaf_node_key_size}
use sqlyt.Table.{SqlSchema, Table, user_table, compute_row_layout, table_init_user}
use sqlyt.Table.Layout.{Tiles, compute_row_layout-Tiles, IsTable, table_init_user-IsTable}

-- `id int, name text`
abbrev users : SqlSchema
users = record {
  columns =
      record { name = b'i' ∷ b'd' ∷ []; type = 1; max = 0 }
      ∷ record { name = b'n' ∷ []; type = 2; max = 64 }
      ∷ [];
  create_sql = [];
}

users_layout : compute_row_layout users ≡ (
  true,
  record {
    value_size = 68;
    fields = record { offset = 0; size = 4 } ∷ record { offset = 4; size = 64 } ∷ [];
  },
)
unfolding compute_row_layout
users_layout = refl

compute_row_layout-Tiles_example :
    Tiles 0 (compute_row_layout users).1.fields (compute_row_layout users).1.value_size
compute_row_layout-Tiles_example =
    compute_row_layout-Tiles users (omega arith, (omega arith, tt)) (omega arith)

abbrev users_table : Table
users_table = user_table 2 users (record {
  value_size = 68;
  fields = record { offset = 0; size = 4 } ∷ record { offset = 4; size = 64 } ∷ [];
})

users_init : table_init_user 2 users ≡ some users_table
unfolding table_init_user compute_row_layout
users_init = refl

users_small : (compute_row_layout users).1.value_size < u32_mod - leaf_node_key_size
unfolding compute_row_layout
users_small = omega arith

table_init_user-IsTable_example :
    IsTable users_table
    × (0 < users_table.value_size)
    × (users_table.root_page_num ≡ 2)
    × (users_table.schema ≡ users)
table_init_user-IsTable_example = table_init_user-IsTable 2 users users_table users_init users_small
