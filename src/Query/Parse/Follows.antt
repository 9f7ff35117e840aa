-- ===== src/Query/Parse/Follows.antt =====
-- One effect under two runs of the parser.
use localmail.Common.{
  ◌≡◌, ◌⊎◌, inl, inr, Bool, true, false, Option, none, some, List, [], ◌∷◌, ◌++◌, refl, sym, ap,
  ◌∙◌,
}
use localmail.Query.Text.{Text}
use localmail.Query.Tokens.Whole.{append-nil, append_assoc}
use localmail.Query.Fields.{
  QueryResult, Effect, Fields, apply_has, apply, and_then, parsed, refused, set_from, set_to,
  set_subject, set_label, set_attachment_name, add_account, add_folder, add_lang, add_free,
  add_account_id, add_folder_id, set_after, set_before, set_has, nothing,
}

-- An earlier has: that the other run has not seen, or the same one.
abbrev pub Agrees : Option Bool → Option Bool → Type 0
Agrees h h0 = (h0 ≡ none) ⊎ (h0 ≡ h)

-- Two runs over the same tokens: where the first goes through, so does the second, and both add the
-- same free text.
abbrev pub Follows : Fields → Fields → QueryResult Fields → QueryResult Fields → Type 0
Follows f f0 (refused e) r0 = Unit
Follows f f0 (parsed g) (refused e) = ⊥
Follows f f0 (parsed g) (parsed g0) =
    Agrees g.has_attachment g0.has_attachment
    × ((added : List Text) × (g.free_parts ≡ f.free_parts ++ added)
        × (g0.free_parts ≡ f0.free_parts ++ added))

abbrev pub none_added :
    (f f0 : Fields)
    → (added : List Text) × (f.free_parts ≡ f.free_parts ++ added)
      × (f0.free_parts ≡ f0.free_parts ++ added)
none_added f f0 = ([], sym (append-nil f.free_parts), sym (append-nil f0.free_parts))

apply_has-Follows :
    (wanted : Bool) (h h0 : Option Bool) (f f0 : Fields)
    → Agrees h h0
    → Follows f f0 (apply_has wanted h f) (apply_has wanted h0 f0)
apply_has-Follows true (some false) h0 f f0 a = tt
apply_has-Follows false (some true) h0 f f0 a = tt
apply_has-Follows true (some true) (some false) f f0 a = elim a [
  | inl e ↦ absurd (cc e)
  | inr e ↦ absurd (cc e)
]
apply_has-Follows false (some false) (some true) f f0 a = elim a [
  | inl e ↦ absurd (cc e)
  | inr e ↦ absurd (cc e)
]
apply_has-Follows true none (some false) f f0 a = elim a [
  | inl e ↦ absurd (cc e)
  | inr e ↦ absurd (cc e)
]
apply_has-Follows false none (some true) f f0 a = elim a [
  | inl e ↦ absurd (cc e)
  | inr e ↦ absurd (cc e)
]
apply_has-Follows true (some true) (some true) f f0 a = (inr refl, none_added f f0)
apply_has-Follows true (some true) none f f0 a = (inr refl, none_added f f0)
apply_has-Follows true none (some true) f f0 a = (inr refl, none_added f f0)
apply_has-Follows true none none f f0 a = (inr refl, none_added f f0)
apply_has-Follows false (some false) (some false) f f0 a = (inr refl, none_added f f0)
apply_has-Follows false (some false) none f f0 a = (inr refl, none_added f f0)
apply_has-Follows false none (some false) f f0 a = (inr refl, none_added f f0)
apply_has-Follows false none none f f0 a = (inr refl, none_added f f0)

pub apply-Follows :
    (eff : Effect) (f f0 : Fields)
    → Agrees f.has_attachment f0.has_attachment
    → Follows f f0 (apply eff f) (apply eff f0)
unfolding apply
apply-Follows (set_from v) f f0 a = (a, none_added f f0)
apply-Follows (set_to v) f f0 a = (a, none_added f f0)
apply-Follows (set_subject v) f f0 a = (a, none_added f f0)
apply-Follows (set_label v) f f0 a = (a, none_added f f0)
apply-Follows (set_attachment_name v) f f0 a = (a, none_added f f0)
apply-Follows (add_account v) f f0 a = (a, none_added f f0)
apply-Follows (add_folder v) f f0 a = (a, none_added f f0)
apply-Follows (add_lang v) f f0 a = (a, none_added f f0)
apply-Follows (add_free v) f f0 a = (a, (v ∷ [], refl, refl))
apply-Follows (add_account_id n) f f0 a = (a, none_added f f0)
apply-Follows (add_folder_id n) f f0 a = (a, none_added f f0)
apply-Follows (set_after day) f f0 a = (a, none_added f f0)
apply-Follows (set_before day) f f0 a = (a, none_added f f0)
apply-Follows (set_has wanted) f f0 a =
    apply_has-Follows wanted f.has_attachment f0.has_attachment f f0 a
apply-Follows nothing f f0 a = (a, none_added f f0)

-- A token that is not free text.
abbrev pub IsFilter : QueryResult Effect → Type 0
IsFilter (refused e) = Unit
IsFilter (parsed (add_free v)) = ⊥
IsFilter (parsed _) = Unit

-- The free text so far, under a filter.
abbrev pub SameFree : Fields → QueryResult Fields → Type 0
SameFree f (refused e) = Unit
SameFree f (parsed g) = g.free_parts ≡ f.free_parts

apply_has-SameFree :
    (wanted : Bool) (h : Option Bool) (f : Fields) → SameFree f (apply_has wanted h f)
apply_has-SameFree true (some false) f = tt
apply_has-SameFree false (some true) f = tt
apply_has-SameFree true (some true) f = refl
apply_has-SameFree true none f = refl
apply_has-SameFree false (some false) f = refl
apply_has-SameFree false none f = refl

pub and_then-SameFree :
    (r : QueryResult Effect) (f : Fields) → IsFilter r → SameFree f (and_then r f)
unfolding apply
and_then-SameFree (refused e) f h = tt
and_then-SameFree (parsed (add_free v)) f h = absurd h
and_then-SameFree (parsed (set_has wanted)) f h = apply_has-SameFree wanted f.has_attachment f
and_then-SameFree (parsed (set_from v)) f h = refl
and_then-SameFree (parsed (set_to v)) f h = refl
and_then-SameFree (parsed (set_subject v)) f h = refl
and_then-SameFree (parsed (set_label v)) f h = refl
and_then-SameFree (parsed (set_attachment_name v)) f h = refl
and_then-SameFree (parsed (add_account v)) f h = refl
and_then-SameFree (parsed (add_folder v)) f h = refl
and_then-SameFree (parsed (add_lang v)) f h = refl
and_then-SameFree (parsed (add_account_id n)) f h = refl
and_then-SameFree (parsed (add_folder_id n)) f h = refl
and_then-SameFree (parsed (set_after day)) f h = refl
and_then-SameFree (parsed (set_before day)) f h = refl
and_then-SameFree (parsed nothing) f h = refl

pub and_then-Follows :
    (r : QueryResult Effect) (f f0 : Fields)
    → Agrees f.has_attachment f0.has_attachment
    → Follows f f0 (and_then r f) (and_then r f0)
and_then-Follows (refused e) f f0 a = tt
and_then-Follows (parsed eff) f f0 a = apply-Follows eff f f0 a

pub Follows-trans :
    (f f0 g g0 : Fields) (r r0 : QueryResult Fields)
    → Follows f f0 (parsed g) (parsed g0)
    → Follows g g0 r r0
    → Follows f f0 r r0
Follows-trans f f0 g g0 (refused e) r0 h k = tt
Follows-trans f f0 g g0 (parsed x) (refused e) h k = absurd k
Follows-trans f f0 g g0 (parsed x) (parsed x0) (a, (s, e, e0)) (b, (t, d, d0)) = (
  b,
  (
    s ++ t,
    d ∙ ap (◌++ t) e ∙ append_assoc f.free_parts s t,
    d0 ∙ ap (◌++ t) e0 ∙ append_assoc f0.free_parts s t,
  ),
)
