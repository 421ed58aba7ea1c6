-- ===== src/Frontend/SavedInputs/Laws.antt =====
-- Each argument is read back under its name.
use mathlib.Core.List.{append_assoc, append-nil}
use rcpp_deep_state.Base.{
  ◌≡◌, refl, ap, sym, ◌∙◌, Bool, true, false, ◌||◌, List, [], ◌∷◌, ◌++◌, map, All, codes, str_eq,
  has_substring, has_substring-right, has_substring_refl, or_false, if◌then◌else◌, arith,
}
use rcpp_deep_state.Frontend.Types.{Text, Argument, type_arg}
use rcpp_deep_state.Frontend.Harness.{arg_name, save_inputs, ◌/◌}
use rcpp_deep_state.Frontend.SavedInputs.Names.{IsReadable, entry, read_as_lem}
use rcpp_deep_state.Frontend.SavedInputs.{is_qs, saved_file, Inputs, assign, read_inputs}

abbrev has_entry : {Value : Type 0} → Text → Inputs Value → Bool
has_entry name [] = false
has_entry name (e ∷ entries) = str_eq name e.0 || has_entry name entries

assign-new :
    {Value : Type 0} (name : Text) (v : Value) (entries : Inputs Value)
    → has_entry name entries ≡ false
    → assign name v entries ≡ entries ++ ((name, v) ∷ [])
unfolding assign
assign-new name v [] h = refl
assign-new name v (e ∷ entries) h =
    let (other, later) = or_false (str_eq name e.0) (has_entry name entries) h in
    ap (λ b. elim b [ true ↦ (e.0, v) ∷ entries | false ↦ e ∷ assign name v entries ]) other
    ∙ ap (λ es. e ∷ es) (assign-new name v entries later)

has_entry-append :
    {Value : Type 0} (name other : Text) (v : Value) (entries : Inputs Value)
    → has_entry name entries ≡ false
    → str_eq name other ≡ false
    → has_entry name (entries ++ ((other, v) ∷ [])) ≡ false
has_entry-append name other v [] h k = ground arith
has_entry-append name other v (e ∷ entries) h k =
    ground (arith, has_entry-append name other v entries)

-- The names of the arguments are different.
abbrev pub AreNamedApart : List Argument → Type 0
AreNamedApart [] = Unit
AreNamedApart (a ∷ more) =
    All (λ b. str_eq (arg_name b) (arg_name a) ≡ false) more × AreNamedApart more

module _ {Value : Type 0} (qread scan : Text → Value) (dir : Text) where
  abbrev AreNew : Inputs Value → List Argument → Type 0
  AreNew entries = All (λ a. has_entry (arg_name a) entries ≡ false)

  still_new :
      (entries : Inputs Value) (other : Text) (v : Value) (arguments : List Argument)
      → AreNew entries arguments
      → All (λ b. str_eq (arg_name b) other ≡ false) arguments
      → AreNew (entries ++ ((other, v) ∷ [])) arguments
  still_new entries other v [] h k = tt
  still_new entries other v (a ∷ more) h k = (
    has_entry-append (arg_name a) other v entries h.0 k.0,
    still_new entries other v more h.1 k.1,
  )

  read_inputs-append :
      (entries : Inputs Value) (arguments : List Argument)
      → is_qs dir ≡ false
      → All (λ a. IsReadable (arg_name a)) arguments
      → AreNamedApart arguments
      → AreNew entries arguments
      → read_inputs qread scan entries (map (λ a. dir / saved_file a) arguments)
        ≡ entries ++ map (entry qread scan dir) arguments
  unfolding read_inputs
  read_inputs-append entries [] h readable apart new = sym (append-nil entries)
  read_inputs-append entries (a ∷ more) h readable apart new =
      let (name, v) = entry qread scan dir a in
      let rest : List Text = map (λ b. dir / saved_file b) more in
      ap (λ e. read_inputs qread scan (assign e.0 e.1 entries) rest)
        (read_as_lem qread scan dir (str_eq (type_arg a.argument_type) (codes "mat")) (arg_name a) h
          readable.0)
      ∙ (ap (λ es. read_inputs qread scan es rest) (assign-new name v entries new.0)
          ∙ (read_inputs-append (entries ++ ((name, v) ∷ [])) more h readable.1 apart.1
                (still_new entries name v more new.1 apart.0)
              ∙ append_assoc entries ((name, v) ∷ []) (map (entry qread scan dir) more)))

-- The file in the code of the harness.
abbrev quoted : Text → Text
quoted path = codes "\"" ++ (path ++ codes "\"")

between :
    (u path s : Text) → has_substring (u ++ (b'"' ∷ (path ++ (b'"' ∷ s)))) (quoted path) ≡ true
between u path s = has_substring-right u (b'"' ∷ (path ++ (b'"' ∷ s))) (quoted path) (
    ap (λ t. has_substring (b'"' ∷ t) (quoted path)) (sym (append_assoc path (codes "\"") s))
    ∙ has_substring_refl (quoted path) s)

-- The two branches of save_inputs.
abbrev mat_text : Text → Text → Text
mat_text path name =
    codes "std::ofstream "
    ++ name
    ++ codes "_stream;\n  "
    ++ name
    ++ codes "_stream.open(\""
    ++ path
    ++ codes "\" );\n  "
    ++ name
    ++ codes "_stream << "
    ++ name
    ++ codes ";\n  "
    ++ name
    ++ codes "_stream.close(); \n"

abbrev qs_text : Text → Text → Text
qs_text path name =
    codes "qs::c_qsave("
    ++ name
    ++ codes ",\""
    ++ path
    ++ codes "\",\n\t\t\"high\", \"zstd\", 1, 15, true, 1);\n"

mat_text_lem : (path name : Text) → has_substring (mat_text path name) (quoted path) ≡ true
mat_text_lem path name =
    let u : Text =
      codes "std::ofstream "
      ++ (name ++ (codes "_stream;\n  " ++ (name ++ codes "_stream.open("))) in
    let s : Text =
      codes " );\n  "
      ++ (name
          ++ (codes "_stream << "
              ++ (name ++ (codes ";\n  " ++ (name ++ codes "_stream.close(); \n"))))) in
    let same : mat_text path name ≡ u ++ (b'"' ∷ (path ++ (b'"' ∷ s))) = simp append_assoc in
    ap (λ t. has_substring t (quoted path)) same ∙ between u path s

qs_text_lem : (path name : Text) → has_substring (qs_text path name) (quoted path) ≡ true
qs_text_lem path name =
    let u : Text = codes "qs::c_qsave(" ++ (name ++ codes ",") in
    let s : Text = codes ",\n\t\t\"high\", \"zstd\", 1, 15, true, 1);\n" in
    let same : qs_text path name ≡ u ++ (b'"' ∷ (path ++ (b'"' ∷ s))) = simp append_assoc in
    ap (λ t. has_substring t (quoted path)) same ∙ between u path s

saves :
    (is_mat : Bool) (dir x : Text)
    → has_substring
        (if is_mat then mat_text (dir / x) x else qs_text (dir / (x ++ codes ".qs")) x)
        (quoted (dir / (if is_mat then x else x ++ codes ".qs")))
      ≡ true
saves true dir x = mat_text_lem (dir / x) x
saves false dir x = qs_text_lem (dir / (x ++ codes ".qs")) x

abbrev pub IsSavedIn : Text → Argument → Type 0
IsSavedIn dir a = has_substring (save_inputs dir a) (quoted (dir / saved_file a)) ≡ true

saves-All : (dir : Text) (arguments : List Argument) → All (IsSavedIn dir) arguments
unfolding save_inputs
saves-All dir [] = tt
saves-All dir (a ∷ more) =
    (saves (str_eq (type_arg a.argument_type) (codes "mat")) dir (arg_name a), saves-All dir more)

All-new :
    (Value : Type 0) (arguments : List Argument)
    → All (λ a. has_entry {Value = Value} (arg_name a) [] ≡ false) arguments
All-new Value [] = tt
All-new Value (a ∷ more) = (refl, All-new Value more)

-- The harness names the file of each argument under inputs, and from these files the analysis
-- reads each argument back under its name, in the order of the files: by scan a matrix of arma,
-- by qread any other; the path of inputs does not contain `.qs`, and the names are different,
-- have no dot and no slash, and no `qs` after the first character.
pub read_inputs-save_inputs :
    {Value : Type 0} (qread scan : Text → Value) (dir : Text) (arguments : List Argument)
    → is_qs dir ≡ false
    → All (λ a. IsReadable (arg_name a)) arguments
    → AreNamedApart arguments
    → All (IsSavedIn dir) arguments
      × (read_inputs qread scan [] (map (λ a. dir / saved_file a) arguments)
          ≡ map (entry qread scan dir) arguments)
read_inputs-save_inputs {Value = Value} qread scan dir arguments h readable apart = (
  saves-All dir arguments,
  read_inputs-append qread scan dir [] arguments h readable apart (All-new Value arguments),
)
