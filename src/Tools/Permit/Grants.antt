-- ===== src/Tools/Permit/Grants.antt =====
-- The permission that Executor.Execute of backend/internal/tool/executor.go asks for.
use mathlib.Core.List.Memᴰ
use open_agent_showcase.Common.{
  List, [], ◌∷◌, Bool, true, false, ◌||◌, ◌&&◌, any, ==_iff, ==_refl, ◌==◌, str_eq, Memᴰ, Memᴰ-cons,
  ◌≡◌, refl, sym, ap, ◌∙◌, inl, inr,
}
use open_agent_showcase.Tools.Permit.{Grant, Store, Request, is_allowed}

or_true : (a b : Bool) → b ≡ true → (a || b) ≡ true
or_true true b h = refl
or_true false b h = h

granted : (a b c : Bool) → a ≡ true → c ≡ true → (a && (b || c)) ≡ true
granted a true c h i = rw h refl
granted a false c h i = rw (h, i) refl

any-Memᴰ :
    (p : Grant → Bool) (g : Grant) (gs : List Grant) → Memᴰ g gs → p g ≡ true → any p gs ≡ true
any-Memᴰ p g [] h e = absurd (Memᴰ.not-nil h)
any-Memᴰ p g (x ∷ gs) h e = elim ((Memᴰ-cons g x gs).0 h) [
  | inl i ↦ ap (λ b. b || any p gs) (ap p (sym i) ∙ e)
  | inr i ↦ or_true (p x) (any p gs) (any-Memᴰ p g gs i e)
]

-- A tool that is assigned to the agent is permitted, also where the assignment is disabled.
is_allowed-grant :
    (st : Store) (req : Request) (g : Grant)
    → Memᴰ g st.grants
    → g.agent ≡ req.agent
    → is_allowed st req g.tool ≡ true
unfolding is_allowed
is_allowed-grant st req g h e =
    rw
      (any-Memᴰ _ g st.grants h (
        granted (g.agent == req.agent) (str_eq g.name req.name && g.enabled) (g.tool == g.tool)
          ((==_iff g.agent req.agent).1 e) (==_refl g.tool)))
      refl
