-- ===== src/Token/Descriptions.antt =====
-- The descriptions by which the Token controller finds authorizations.
use Prim.Native.String.{count}
use text.Mathlib.TextLemmas.{length-append, append_assoc, append_inj, append_cancel_right}
use influxdb_operator.Base.{String, ◌+◌, ◌≡◌, ◌∙◌, sym, ap, ◌<>◌, arith}
use influxdb_operator.Token.Data.{get_authorization_description}

-- A text that ends in a text of a known length has a known beginning and end.
append_inj_right :
    (s₁ s₂ t₁ t₂ : String) → s₁ <> t₁ ≡ s₂ <> t₂ → count t₁ ≡ count t₂ → (s₁ ≡ s₂) × (t₁ ≡ t₂)
append_inj_right s₁ s₂ t₁ t₂ e n =
    let total : count s₁ + count t₁ ≡ count s₂ + count t₂ =
      sym (length-append s₁ t₁) ∙ ap count e ∙ length-append s₂ t₂ in
    append_inj e (omega arith)

grouped :
    (name namespace uid : String)
    → name <> "." <> namespace <> "." <> uid ≡ ((name <> "." <> namespace) <> ".") <> uid
grouped name namespace uid = sym (
    append_assoc (name <> "." <> namespace) "." uid
    ∙ append_assoc name ("." <> namespace) ("." <> uid)
    ∙ ap (λ t. name <> t) (append_assoc "." namespace ("." <> uid)))

-- Two descriptions with UIDs of one length are equal only if the UIDs are, and the names with their
-- namespaces.
pub get_authorization_description_inj :
    (name₁ namespace₁ uid₁ name₂ namespace₂ uid₂ : String)
    → count uid₁ ≡ count uid₂
    → get_authorization_description name₁ namespace₁ uid₁
      ≡ get_authorization_description name₂ namespace₂ uid₂
    → (uid₁ ≡ uid₂) × (name₁ <> "." <> namespace₁ ≡ name₂ <> "." <> namespace₂)
unfolding get_authorization_description
get_authorization_description_inj name₁ namespace₁ uid₁ name₂ namespace₂ uid₂ n e =
    let (starts, ends) =
      append_inj_right ((name₁ <> "." <> namespace₁) <> ".") ((name₂ <> "." <> namespace₂) <> ".")
        uid₁ uid₂ (sym (grouped name₁ namespace₁ uid₁) ∙ e ∙ grouped name₂ namespace₂ uid₂) n in
    (ends, append_cancel_right (name₁ <> "." <> namespace₁) (name₂ <> "." <> namespace₂) "." starts)
