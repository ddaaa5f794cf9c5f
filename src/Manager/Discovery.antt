-- ===== src/Manager/Discovery.antt =====
-- The provider rows that `refresh_catalog` of manager.py takes from the discovery response: collected,
-- sorted and cut down to component names with their priorities.
use msys_hal.Prelude.{
  ◌++◌, String, Bool, true, false, not, ◌&&◌, ◌||◌, Option, none, some, List, [], ◌∷◌, leb, take,
  length, if◌then◌else◌, string_eq, prefix, text_le, member,
}
use msys_hal.Json.{
  Value, null, int, str, arr, obj, Items, nil, cons, Fields, end, get_field, field_or, is_text,
  count_items,
}
use msys_hal.Json.Int.{ℤ, pos, negsuc, neg, leb_ℤ, clamp}
use msys_hal.Errors.{Result, ok, err, ◌>>◌, require, provider_error}
use msys_hal.Validation.Patterns.{component_re}
use msys_hal.Manager.State.{Env, str_of}
use msys_hal.Manager.Responses.{provider_interface}

abbrev dicts : Items → List Fields
dicts nil = []
dicts (cons (obj fs) rest) = fs ∷ dicts rest
dicts (cons v rest) = dicts rest

-- The rows of one service: none if it is not a dict, has another name or lists no providers.
service_rows : Value → List Fields
service_rows (obj service) =
    if is_text provider_interface (field_or null "name" service)
    then elim (get_field "providers" service) [ some (arr raw) ↦ dicts raw | _ ↦ [] ]
    else []
service_rows v = []

-- The loop over the services, which stops at 128 rows.
collect_rows : List Fields → Items → List Fields
collect_rows rows nil = rows
collect_rows rows (cons service rest) =
    let rows' = rows ++ service_rows service in
    elim (leb 128 (length rows')) [ true ↦ take 128 rows' | false ↦ collect_rows rows' rest ]

-- `row.get("priority", 0)` if that is an integer.
row_priority : Fields → Option ℤ
row_priority row = elim (get_field "priority" row) [
  | none ↦ some (pos 0)
  | some (int n) ↦ some n
  | some _ ↦ none
]

-- The sort key: the negated priority, and the first 192 characters of the component.
sort_priority : Fields → ℤ
sort_priority row = elim (row_priority row) [ none ↦ pos 0 | some n ↦ neg n ]

sort_component : Env → Fields → String
sort_component env row =
    prefix 192 (elim (get_field "component" row) [ none ↦ "" | some v ↦ str_of env v ])

row_le : Env → Fields → Fields → Bool
row_le env a b =
    leb_ℤ (sort_priority a) (sort_priority b)
    && (not (leb_ℤ (sort_priority b) (sort_priority a))
        || text_le (sort_component env a) (sort_component env b))

insert_row : Env → Fields → List Fields → List Fields
insert_row env row [] = row ∷ []
insert_row env row (x ∷ rows) =
    if row_le env row x then row ∷ x ∷ rows else x ∷ insert_row env row rows

sort_rows : Env → List Fields → List Fields
sort_rows env [] = []
sort_rows env (row ∷ rows) = insert_row env row (sort_rows env rows)

-- The loop that keeps the first row of each component; a row whose priority is no integer is
-- dropped, and so are the later rows of its component.
specs_of : List String → List Fields → List (String × ℤ)
specs_of seen [] = []
specs_of seen (row ∷ rows) = elim (field_or null "component" row) [
  | str component ↦ elim (component_re component && not (member component seen)) [
    | false ↦ specs_of seen rows
    | true ↦ elim (row_priority row) [
      | none ↦ specs_of (component ∷ seen) rows
      | some n ↦ (component, clamp (negsuc 9999) (pos 10000) n) ∷ specs_of (component ∷ seen) rows
    ]
  ]
  | _ ↦ specs_of seen rows
]

-- From the discovery response to the components to describe.
unfoldable pub provider_specs : Env → Fields → Result (List (String × ℤ))
unfolding service_rows collect_rows row_priority sort_priority sort_component row_le insert_row
    sort_rows specs_of
provider_specs env discovery = elim (get_field "services" discovery) [
  | none ↦ ok []
  | some (arr services) ↦ do
    require (leb (count_items services) 16)
        (provider_error "provider discovery returned invalid services" end)
    ok (specs_of [] (sort_rows env (collect_rows [] services)))
  | some _ ↦ err (provider_error "provider discovery returned invalid services" end)
]
