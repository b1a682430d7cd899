-- ===== src/Uri/Query.antt =====
-- URLSearchParams, as the list of its names and values in order.
use omni_store.Common.{Bool, not, List, [], ◌∷◌, ◌++◌, any, keep, if◌then◌else◌}
use omni_store.Texts.{Text, text_eq}
use omni_store.Uri.Bytes.{usv}
use omni_store.Uri.Escape.{form_text}

abbrev pub Params : Type 0
Params = List (Text × Text)

abbrev pub named : Text → Text × Text → Bool
named name (n, v) = text_eq n name

replace_first : Text → Text → Params → Params
replace_first name value [] = []
replace_first name value (p ∷ ps) =
    let rest = replace_first name value ps in
    if named name p then (name, value) ∷ keep (λ q. not (named name q)) ps else p ∷ rest

-- `params.set(name, value)`.
unfoldable pub set_param : Text → Text → Params → Params
unfolding replace_first text_eq
set_param name value ps =
    if any (named name) ps then replace_first name value ps else ps ++ ((name, value) ∷ [])

abbrev pub set_when : Bool → Text → Text → Params → Params
set_when given name value ps = if given then set_param name value ps else ps

abbrev pub param_text : Text × Text → Text
param_text (name, value) = form_text (usv name) ++ (b'=' ∷ form_text (usv value))

-- `params.toString()`.
unfoldable pub params_text : Params → Text
unfolding form_text usv
params_text [] = []
params_text (p ∷ []) = param_text p
params_text (p ∷ q ∷ ps) = param_text p ++ (b'&' ∷ params_text (q ∷ ps))
