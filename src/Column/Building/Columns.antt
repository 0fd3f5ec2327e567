-- ===== src/Column/Building/Columns.antt =====
-- The columns of the three builders of src/column.cpp, over any sequence of calls.
use shibori_engine.Base.{ℕ, List}
use shibori_engine.LogicalType.{LogicalType}
use shibori_engine.Column.FixedWidth.{new_fixed_width}
use shibori_engine.Column.Boolean.{new_boolean}
use shibori_engine.Column.VariableWidth.{new_variable_width}
use shibori_engine.Column.Building.{built, IsBuilt, built-IsBuilt}
use shibori_engine.Column.Building.FixedWidth.{FixedWidthRequest, fixed_width_columns}
use shibori_engine.Column.Building.Boolean.{BooleanRequest, boolean_columns}
use shibori_engine.Column.Building.VariableWidth.{VariableWidthRequest, variable_width_columns}

-- Any sequence of setters and finishes on a new fixed-width, boolean or variable-width builder returns
-- at most one column. It has the builder's row count, exactly the parts of its storage kind, a type that
-- is stored that way, and a validity of its rows, if any.
pub built-IsColumn :
    (type : LogicalType) (n : ℕ) (fixed : List FixedWidthRequest) (boolean : List BooleanRequest)
    (variable : List VariableWidthRequest)
    → IsBuilt fixed_width_columns n (built fixed_width_columns fixed (new_fixed_width type n))
      × IsBuilt boolean_columns n (built boolean_columns boolean (new_boolean n))
      × IsBuilt variable_width_columns n
          (built variable_width_columns variable (new_variable_width type n))
unfolding fixed_width_columns boolean_columns variable_width_columns
built-IsColumn type n fixed boolean variable = (
  built-IsBuilt fixed_width_columns fixed (new_fixed_width type n),
  built-IsBuilt boolean_columns boolean (new_boolean n),
  built-IsBuilt variable_width_columns variable (new_variable_width type n),
)
