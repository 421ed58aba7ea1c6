-- ===== src/Frontend/ValgrindLog.antt =====
-- The table of the errors in a log of valgrind (R/xml_log.R), from the tree that xml2 has read.
pub mod Unique
pub mod Laws
pub mod Traces
pub mod Blocks
use rcpp_deep_state.Base.{
  Bool, true, false, ◌&&◌, ◌||◌, Option, none, some, List, [], ◌∷◌, ◌++◌, codes, str_eq,
  has_substring, if◌then◌else◌,
}
use rcpp_deep_state.Frontend.Types.{Text}

-- A frame of a stack, with the texts of these children.
pub record Frame : Type 0 where
  pub dir : Option Text
  pub file : Option Text
  pub line : Option Text

-- The children of an error; of an xwhat the text in it.
pub data Child : Type 0 where
  kind what xwhat auxwhat other : Text → Child
  stack : List Frame → Child

abbrev pub Error : Type 0
Error = List Child

-- `src.dir.xpath`: the directory of a frame is that of the sources, or its file has src/.
pub data SrcDir : Type 0 where
  dir_is : Text → SrcDir
  file_in_src : SrcDir

abbrev some_line_has : Text → List Text → Bool
some_line_has t [] = false
some_line_has t (l ∷ ls) = has_substring l t || some_line_has t ls

-- The flag says whether `grep(src.dir, lines)` finds a line; src.dir is a regular expression there.
unfoldable pub src_dir_xpath : Text → Bool → List Text → Option SrcDir
src_dir_xpath src_dir found lines =
    if found
    then some (dir_is src_dir)
    else if some_line_has (codes "<file>src/") lines
    then some file_in_src
    else none

abbrev pub is_found : SrcDir → Frame → Bool
is_found (dir_is src_dir) f = elim f.dir [ none ↦ false | some d ↦ str_eq d src_dir ]
is_found file_in_src f = elim f.file [ none ↦ false | some t ↦ has_substring t (codes "src/") ]

-- `paste0(first.file, ' : ', first.line)`, or NA.
abbrev pub file_line : Option Text → Option Text → Option Text
file_line (some file) (some line) = some (file ++ (codes " : " ++ line))
file_line _ _ = none

-- `stack.trace`: of the first frame that is found.
unfoldable pub stack_trace : SrcDir → List Frame → Option Text
stack_trace src_dir [] = none
stack_trace src_dir (f ∷ fs) = elim (is_found src_dir f) [
  | true ↦ file_line f.file f.line
  | false ↦ stack_trace src_dir fs
]

abbrev pub starts_with_stack : List Child → Bool
starts_with_stack (stack fs ∷ more) = true
starts_with_stack _ = false

-- `address.trace`: whether a stack comes right after the first auxwhat.
unfoldable pub address_trace : List Child → Bool
address_trace [] = false
address_trace (auxwhat t ∷ more) = starts_with_stack more
address_trace (_ ∷ more) = address_trace more

-- `get_string` for each child that is asked for; the first one counts.
unfoldable pub get_kind : List Child → Option Text
get_kind [] = none
get_kind (kind t ∷ more) = some t
get_kind (_ ∷ more) = get_kind more

unfoldable pub get_what : List Child → Option Text
get_what [] = none
get_what (what t ∷ more) = some t
get_what (_ ∷ more) = get_what more

unfoldable pub get_xwhat : List Child → Option Text
get_xwhat [] = none
get_xwhat (xwhat t ∷ more) = some t
get_xwhat (_ ∷ more) = get_xwhat more

unfoldable pub get_auxwhat : List Child → Option Text
get_auxwhat [] = none
get_auxwhat (auxwhat t ∷ more) = some t
get_auxwhat (_ ∷ more) = get_auxwhat more

-- `stack.nodes`.
unfoldable pub stack_nodes : List Child → List (List Frame)
stack_nodes [] = []
stack_nodes (stack fs ∷ more) = fs ∷ stack_nodes more
stack_nodes (_ ∷ more) = stack_nodes more

unfoldable pub message : Error → Option Text
unfolding get_what get_xwhat
message error = elim (get_xwhat error) [ none ↦ get_what error | some t ↦ some t ]

-- A row of the table; NA is `none`.
pub record Row : Type 0 where
  pub err_kind : Option Text
  pub message : Option Text
  pub file_line : Text
  pub address_msg : Text
  pub address_trace : Option Text

-- The loop over the stacks.
unfoldable pub stack_rows : SrcDir → (Text → Row) → List (List Frame) → List Row
unfolding stack_trace
stack_rows src_dir row [] = []
stack_rows src_dir row (s ∷ stacks) = elim (stack_trace src_dir s) [
  | none ↦ stack_rows src_dir row stacks
  | some ret ↦ row ret ∷ stack_rows src_dir row stacks
]

-- `stack.nodes[-length(stack.nodes)]`, and the trace of `stack.nodes[length(stack.nodes)]`.
unfoldable pub all_but_last : List (List Frame) → List (List Frame)
all_but_last [] = []
all_but_last (s ∷ []) = []
all_but_last (s ∷ t ∷ stacks) = s ∷ all_but_last (t ∷ stacks)

unfoldable pub last_trace : SrcDir → List (List Frame) → Option Text
unfolding stack_trace
last_trace src_dir [] = none
last_trace src_dir (s ∷ []) = stack_trace src_dir s
last_trace src_dir (s ∷ t ∷ stacks) = last_trace src_dir (t ∷ stacks)

abbrev pub row_of : Error → Text → Option Text → Text → Row
row_of error address add_ret ret = record {
  err_kind = get_kind error;
  message = message error;
  file_line = ret;
  address_msg = address;
  address_trace = add_ret;
}

-- The body of the loop over the errors.
unfoldable pub error_rows : SrcDir → Error → List Row
unfolding get_auxwhat stack_nodes stack_rows address_trace all_but_last last_trace
error_rows src_dir error =
    let stacks : List (List Frame) = stack_nodes error in
    elim (get_auxwhat error) [
      | none ↦
          stack_rows src_dir
            (row_of error (codes "No Address found") (some (codes "No Address Trace found"))) stacks
      | some address ↦ elim (address_trace error) [
        | true ↦
            stack_rows src_dir (row_of error address (last_trace src_dir stacks))
              (all_but_last stacks)
        | false ↦
            stack_rows src_dir (row_of error address (some (codes "No Address Trace found"))) stacks
      ]
    ]

unfoldable pub all_rows : SrcDir → List Error → List Row
unfolding error_rows
all_rows src_dir [] = []
all_rows src_dir (error ∷ errors) = error_rows src_dir error ++ all_rows src_dir errors

abbrev option_eq : Option Text → Option Text → Bool
option_eq none none = true
option_eq (some s) (some t) = str_eq s t
option_eq _ _ = false

abbrev pub row_eq : Row → Row → Bool
row_eq r q =
    option_eq r.err_kind q.err_kind
    && (option_eq r.message q.message
        && (str_eq r.file_line q.file_line
            && (str_eq r.address_msg q.address_msg && option_eq r.address_trace q.address_trace)))

abbrev pub has_row : Row → List Row → Bool
has_row r [] = false
has_row r (q ∷ rows) = row_eq r q || has_row r rows

-- `unique`, with the rows that have been seen.
unfoldable pub unique : List Row → List Row → List Row
unique seen [] = []
unique seen (r ∷ rows) =
    let rest : List Row = unique (r ∷ seen) rows in
    elim (has_row r seen) [ true ↦ rest | false ↦ r ∷ rest ]

-- `rbind` of no rows is NULL.
abbrev pub bind : List Row → Option (List Row)
bind [] = none
bind (r ∷ rows) = some (unique [] (r ∷ rows))

-- `deepstate_read_valgrind_xml`: a table, or NULL.
unfoldable pub read_valgrind_xml : Option SrcDir → List Error → Option (List Row)
unfolding unique all_rows
read_valgrind_xml none errors = some []
read_valgrind_xml (some src_dir) errors = bind (all_rows src_dir errors)
