-- ===== src/Web/Policy/Editing.antt =====
-- The comma-separated fields and the rule list of components/PolicyDrawer.jsx.
use peer_wan.Prelude.{
  ℕ, zero, suc, ◌≤◌, String, Bool, true, false, ◌||◌, not, Option, none, some, List, [], ◌∷◌, ◌++◌,
  map, ◌≡◌, refl, ap, ◌∙◌, arith, keep, All, length, take, drop, last?, is_blank, is_empty, join,
  Bool-cases, inl, inr, if◌then◌else◌,
}
use peer_wan.Prelude.Strings.{
  strip_end, strip_start, no_char, is_comma, split_commas, split_commas-join, split_commas-no_comma,
  strip_end-ends_clear, strip_end_clear, strip_start-starts_clear, strip_start_clear,
  starts_clear-strip_end, no_char-strip_start, no_char-strip_end,
}
use peer_wan.Model.{PolicyRule, validate}
use peer_wan.Routing.{default_via}
use peer_wan.Policy.{trim_space}
use peer_wan.Controller.Policies.{normalize}
use peer_wan.Web.Js.{UiRule}
use peer_wan.Web.Policy.{
  Drawer, RuleForm, is_space, trim, comma_list, make_rule, submit_rule, add_rule, is_given,
  validates, without_index, receive_lines, or_empty,
}

-- An entry that can stand in a comma-separated field: not blank, no comma, no space around it.
pub record IsClean (s : String) : Type 0 where
  pub given : is_blank s ≡ false
  pub no_comma : no_char is_comma s ≡ true
  pub trimmed : trim s ≡ s

trim_idem : (s : String) → trim (trim s) ≡ trim s
unfolding trim
trim_idem s =
    let t : String = strip_start is_space s in
    ap (strip_end is_space) (
      strip_start_clear is_space (strip_end is_space t)
        (starts_clear-strip_end is_space t (strip_start-starts_clear is_space s)))
    ∙ strip_end_clear is_space (strip_end is_space t) (strip_end-ends_clear is_space t)

no_char-trim : (s : String) → no_char is_comma s ≡ true → no_char is_comma (trim s) ≡ true
unfolding trim
no_char-trim s h =
    no_char-strip_end is_comma is_space (strip_start is_space s)
      (no_char-strip_start is_comma is_space s h)

keep-trim-IsClean :
    (pieces : List String)
    → All (λ x. no_char is_comma x ≡ true) pieces
    → All IsClean (keep (λ x. not (is_blank x)) (map trim pieces))
keep-trim-IsClean [] h = tt
keep-trim-IsClean (x ∷ xs) h = elim (Bool-cases (is_blank (trim x))) [
  | inl e ↦ rw e (keep-trim-IsClean xs h.1)
  | inr e ↦ rw e (
    record { given = e; no_comma = no_char-trim x h.0; trimmed = trim_idem x },
    keep-trim-IsClean xs h.1,
  )
]

-- Whatever is typed into a comma-separated field, each entry of the list that is read from it is
-- not blank, has no comma and no space around it.
pub comma_list-IsClean : (typed : Option String) → All IsClean (comma_list typed)
unfolding comma_list
comma_list-IsClean typed =
    keep-trim-IsClean (split_commas (or_empty typed)) (split_commas-no_comma (or_empty typed))

keep-trim_clean :
    (xs : List String) → All IsClean xs → keep (λ x. not (is_blank x)) (map trim xs) ≡ xs
keep-trim_clean [] h = refl
keep-trim_clean (x ∷ xs) h = rw (h.0.trimmed, h.0.given) (ap (◌∷◌ x) (keep-trim_clean xs h.1))

no_commas : (xs : List String) → All IsClean xs → All (λ s. no_char is_comma s ≡ true) xs
no_commas [] h = tt
no_commas (x ∷ xs) h = (h.0.no_comma, no_commas xs h.1)

-- A list of clean entries that is shown joined by commas is read back unchanged.
pub comma_list-join : (xs : List String) → All IsClean xs → comma_list (some (join "," xs)) ≡ xs
unfolding comma_list
comma_list-join [] h = unfold join split_commas trim in refl
comma_list-join (x ∷ xs) h =
    rw (split_commas-join x xs (no_commas (x ∷ xs) h)) (keep-trim_clean (x ∷ xs) h)

-- What the controller decodes from a rule: a missing field is the zero value.
abbrev text_or_blank : Option String → String
text_or_blank none = ""
text_or_blank (some s) = s

abbrev list_or_nil : Option (List String) → List String
list_or_nil none = []
list_or_nil (some l) = l

abbrev pub decoded : UiRule → PolicyRule
decoded r = record {
  prefix = text_or_blank r.prefix;
  via_node = text_or_blank r.via_node;
  path = list_or_nil r.path;
  domains = list_or_nil r.domains;
}

-- The entries of a comma-separated field: the pieces between the commas without the space around them,
-- blank ones left out.
abbrev pub entries : Option String → List String
entries typed = keep (λ x. not (is_blank x)) (map trim (split_commas (text_or_blank typed)))

-- What adding a rule does to the drawer. The controller trims the prefix before it looks at the rule.
pub record IsAdded (v : RuleForm) (before after : Drawer) : Type 0 where
  pub rule : UiRule
  pub added : after ≡ record before { rules = before.rules ++ rule ∷ []; current_path = [] }
  pub prefix : rule.prefix ≡ v.prefix
  pub domains : rule.domains ≡ some (entries v.domains)
  pub path : (decoded rule).path ≡ before.current_path
  pub via :
      rule.via_node
      ≡ (if is_empty before.current_path then v.via_node else last? before.current_path)
  pub accepted :
      validate (normalize (decoded rule))
      ≡ (not (is_blank (trim_space (text_or_blank v.prefix))) || not (is_empty (entries v.domains)))

-- What submitting does, for a form that is complete or not.
abbrev pub IsSubmitted : Bool → RuleForm → Drawer → Drawer → Type 0
IsSubmitted true v before after = IsAdded v before after
IsSubmitted false v before after = after ≡ before

pub comma_list-entries : (typed : Option String) → comma_list typed ≡ entries typed
unfolding comma_list
comma_list-entries none = refl
comma_list-entries (some s) = refl

validate-normalize :
    (r : PolicyRule)
    → (not (is_blank r.via_node) || not (is_empty r.path)) ≡ true
    → validate (normalize r) ≡ (not (is_blank (trim_space r.prefix)) || not (is_empty r.domains))
unfolding validate normalize default_via
validate-normalize r h = ground arith

make_rule-via :
    (path : List String) (v : RuleForm)
    → (make_rule path v).via_node ≡ (if is_empty path then v.via_node else last? path)
unfolding make_rule
make_rule-via [] v = refl
make_rule-via (hop ∷ hops) v = refl

make_rule-path : (path : List String) (v : RuleForm) → (decoded (make_rule path v)).path ≡ path
unfolding make_rule
make_rule-path [] v = refl
make_rule-path (hop ∷ hops) v = refl

-- A form is complete with a node to go by, or where a path is chosen.
abbrev pub is_ready : List String → RuleForm → Bool
is_ready path v = not (is_empty path) || not (is_blank (text_or_blank v.via_node))

given_text : (o : Option String) → is_given o ≡ not (is_blank (text_or_blank o))
given_text none = refl
given_text (some s) = refl

make_rule-goes :
    (path : List String) (v : RuleForm)
    → is_ready path v ≡ true
    → (not (is_blank (decoded (make_rule path v)).via_node)
        || not (is_empty (decoded (make_rule path v)).path))
      ≡ true
unfolding make_rule
make_rule-goes [] v ok = ground (arith, ok)
make_rule-goes (hop ∷ hops) v ok = ground arith

make_rule-accepted :
    (path : List String) (v : RuleForm)
    → is_ready path v ≡ true
    → validate (normalize (decoded (make_rule path v)))
      ≡ (not (is_blank (trim_space (text_or_blank v.prefix))) || not (is_empty (entries v.domains)))
unfolding make_rule
make_rule-accepted path v ok =
    validate-normalize (decoded (make_rule path v)) (make_rule-goes path v ok)
    ∙ rw (comma_list-entries v.domains) refl

make_rule-domains :
    (path : List String) (v : RuleForm) → (make_rule path v).domains ≡ some (entries v.domains)
unfolding make_rule
make_rule-domains path v = rw (comma_list-entries v.domains) refl

-- A rule is added where a path is chosen or the form has a node to go by; otherwise the drawer stays as it
-- is. The added rule comes last, with the form's prefix and the entries of its domains; it has the chosen
-- path and goes by the path's last node, whatever the form says, and without a path by the form's node. The
-- chosen path is cleared, and nothing else changes. The rule is one that the controller counts as
-- valid exactly when the form has a prefix that is not just white space, or a domain.
pub submit_rule-IsAdded :
    (v : RuleForm) (d : Drawer) → IsSubmitted (is_ready d.current_path v) v d (submit_rule v d)
unfolding submit_rule validates add_rule make_rule
submit_rule-IsAdded v d = elim (Bool-cases (is_ready d.current_path v)) [
  | inl ok ↦
      (let valid : validates (not (is_empty d.current_path)) v ≡ true =
          rw (given_text v.via_node) ok in
        let r : IsSubmitted (is_ready d.current_path v) v d (submit_rule v d) = rw ok (
          rw valid (record {
            rule = make_rule d.current_path v;
            added = refl;
            prefix = refl;
            domains = make_rule-domains d.current_path v;
            path = make_rule-path d.current_path v;
            via = make_rule-via d.current_path v;
            accepted = make_rule-accepted d.current_path v ok;
          })) in
        r)
  | inr unready ↦
      (let bad : validates (not (is_empty d.current_path)) v ≡ false =
          rw (given_text v.via_node) unready in
        let r : IsSubmitted (is_ready d.current_path v) v d (submit_rule v d) =
          rw unready (rw bad refl) in
        r)
]

length-take-le : {A : Type 0} (n : ℕ) (xs : List A) → length (take n xs) ≤ n
length-take-le zero xs = omega arith
length-take-le (suc n) [] = omega arith
length-take-le (suc n) (x ∷ xs) = omega (arith, length-take-le n xs)

-- The drawer never shows more than the 200 newest log lines.
pub receive_lines-le :
    (time : String) (lines : Option (List String)) (d : Drawer)
    → length d.log_lines ≤ 200
    → length (receive_lines time lines d).log_lines ≤ 200
unfolding receive_lines
receive_lines-le time none d h = h
receive_lines-le time (some lines) d h = length-take-le 200 _

-- Removing a shown rule takes out that rule and keeps the others in order; an index past the end
-- removes nothing.
pub without_index_lem :
    {A : Type 0} (i : ℕ) (xs : List A) → without_index i xs ≡ take i xs ++ drop (suc i) xs
unfolding without_index
without_index_lem zero [] = refl
without_index_lem (suc i) [] = refl
without_index_lem zero (x ∷ xs) = refl
without_index_lem (suc i) (x ∷ xs) = ap (◌∷◌ x) (without_index_lem i xs)
