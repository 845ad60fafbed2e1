-- ===== src/Chartutil/Paths.antt =====
-- Table, PathValue and tableLookup of pkg/chartutil/values.go, which find a table or a value at a
-- path of keys with dots between them. The text of an error is left out: ErrNoTable is `none`, and
-- the two errors of PathValue are constructors.
pub mod Laws
use helm.Common.{
  ℕ, Bytes, Bool, true, false, if◌then◌else◌, Option, none, some, List, [], ◌∷◌, ◌++◌, ◌==◌,
}
use helm.Common.Words.{split1, join1}
use helm.Chartutil.Value.{Value, Fields, table, values, lookup, istable, end}

abbrev pub fields_of : Option Value → Option Fields
fields_of (some (table fs)) = some fs
fields_of (some (values fs)) = some fs
fields_of _ = none

-- tableLookup
unfoldable pub table_lookup : Fields → Bytes → Option Fields
table_lookup fs simple = fields_of (lookup simple fs)

unfoldable pub descend : List Bytes → Option Fields → Option Fields
descend _ none = none
descend [] (some t) = some t
descend (n ∷ names) (some t) = descend names (table_lookup t n)

-- Values.Table
unfoldable pub table_at : Fields → Bytes → Option Fields
table_at v name = descend (split1 b'.' name) (some v)

pub data PathResult : Type 0 where
  found : Value → PathResult
  no_value zero_length : PathResult

-- a value that is there and is no table
abbrev pub leaf : Option Value → PathResult
leaf none = no_value
leaf (some v) = if istable v then no_value else found v

-- all parts but the last, and the last
unfoldable pub initial : Bytes → List Bytes → List Bytes
initial p [] = []
initial p (q ∷ ps) = p ∷ initial q ps

unfoldable pub last : Bytes → List Bytes → Bytes
last p [] = p
last p (q ∷ ps) = last q ps

abbrev pub value_in : Bytes → Option Fields → PathResult
value_in k none = no_value
value_in k (some t) = leaf (lookup k t)

abbrev pub path_parts : Fields → List Bytes → PathResult
path_parts v [] = no_value
path_parts v (k ∷ []) = leaf (lookup k v)
path_parts v (p ∷ q ∷ ps) =
    value_in (last p (q ∷ ps)) (table_at v (join1 b'.' (initial p (q ∷ ps))))

-- Values.PathValue
unfoldable pub path_value : Fields → Bytes → PathResult
path_value v [] = zero_length
path_value v (c ∷ ypath) = path_parts v (split1 b'.' (c ∷ ypath))
