-- ===== src/Json/Parse/Distinct.antt =====
-- An object that names no property twice is what setting its properties in turn gives.
use flare_stealthwage.Prelude.{
  ◌≡◌, refl, sym, ap, ◌∙◌, none, false, Text, text_eq, text_eq_iff, arith,
}
use flare_stealthwage.Json.Value.{Json, Fields, end, field, get_field, set_field}

abbrev pub Distinct : Fields → Type 0
Distinct end = Unit
Distinct (field k v fs) = (get_field k fs ≡ none) × Distinct fs

-- The properties of `fs`, set one by one.
abbrev pub adds : Fields → Fields → Fields
adds before end = before
adds before (field k v fs) = adds (set_field k v before) fs

text_eq_sym : (s t : Text) → text_eq s t ≡ text_eq t s
text_eq_sym s t = ground (arith, text_eq_iff s t, text_eq_iff t s)

abbrev glued : Fields → Fields → Fields
glued end gs = gs
glued (field k v fs) gs = field k v (glued fs gs)

abbrev Fresh : Fields → Fields → Type 0
Fresh before end = Unit
Fresh before (field k v fs) = (get_field k before ≡ none) × Fresh before fs

set_field-fresh :
    (k : Text) (v : Json) (before : Fields)
    → get_field k before ≡ none
    → set_field k v before ≡ glued before (field k v end)
unfolding get_field set_field
set_field-fresh k v end h = refl
set_field-fresh k v (field l w before) h = ground (arith, set_field-fresh k v before)

get_field-glued :
    (l k : Text) (v : Json) (before : Fields)
    → get_field l before ≡ none
    → text_eq k l ≡ false
    → get_field l (glued before (field k v end)) ≡ none
unfolding get_field
get_field-glued l k v end h e = ground arith
get_field-glued l k v (field m w before) h e = ground (arith, get_field-glued l k v before)

Fresh-glued :
    (k : Text) (v : Json) (before fs : Fields)
    → Fresh before fs
    → get_field k fs ≡ none
    → Fresh (glued before (field k v end)) fs
unfolding get_field
Fresh-glued k v before end f h = tt
Fresh-glued k v before (field l w fs) f h = (
  get_field-glued l k v before f.0 (ground (arith, text_eq_sym k l)),
  Fresh-glued k v before fs f.1 (ground arith),
)

glued_assoc : (a b c : Fields) → glued (glued a b) c ≡ glued a (glued b c)
glued_assoc end b c = refl
glued_assoc (field k v a) b c = ap (field k v) (glued_assoc a b c)

glued-end : (fs : Fields) → glued fs end ≡ fs
glued-end end = refl
glued-end (field k v fs) = ap (field k v) (glued-end fs)

adds-glued : (before fs : Fields) → Distinct fs → Fresh before fs → adds before fs ≡ glued before fs
adds-glued before end p f = sym (glued-end before)
adds-glued before (field k v fs) p f =
    ap (λ gs. adds gs fs) (set_field-fresh k v before f.0)
    ∙ adds-glued (glued before (field k v end)) fs p.1 (Fresh-glued k v before fs f.1 p.0)
    ∙ glued_assoc before (field k v end) fs

Fresh-end : (fs : Fields) → Fresh end fs
unfolding get_field
Fresh-end end = tt
Fresh-end (field k v fs) = (refl, Fresh-end fs)

pub adds-Distinct : (fs : Fields) → Distinct fs → adds end fs ≡ fs
adds-Distinct fs p = adds-glued end fs p (Fresh-end fs)
