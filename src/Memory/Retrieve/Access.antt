-- ===== src/Memory/Retrieve/Access.antt =====
-- What Retrieve of backend/internal/memory/service.go finds.
use open_agent_showcase.Common.{
  ℕ, Option, none, some, List, [], ◌∷◌, Bool, true, false, ◌||◌, ◌&&◌, not, str_eq, if◌then◌else◌,
  is_some, is_id, keep, take, ok, err, ◌≡◌, refl, ap, arith, Bool-cases, inl, inr,
}
use open_agent_showcase.Memory.Store.{Memory}
use open_agent_showcase.Memory.Retrieve.{
  Search, parameter, has_type, holds, every_type, some_holds, build_scope_filter, filter_of,
  is_retrievable, limit_of, deduplicate_for_context, retrieve,
}

abbrev is_own : Option ℕ → Option ℕ → Bool
is_own none o = false
is_own (some a) o = is_id o a

-- Conversations and working memories are those of the agent or of the project, and where neither is
-- given, everybody's.
abbrev may_hear : Option ℕ → Option ℕ → Memory → Bool
may_hear none none m = true
may_hear (some a) p m = is_id m.agent a || is_own p m.project
may_hear none (some p) m = is_id m.project p

-- What an agent may see in a project.
unfoldable pub may_see : Option ℕ → Option ℕ → Memory → Bool
may_see agent project m =
    str_eq m.scope "organization"
    || (((str_eq m.scope "project" || str_eq m.scope "task") && is_own project m.project)
        || (((str_eq m.scope "agent" || str_eq m.scope "session") && is_own agent m.agent)
            || ((str_eq m.scope "working" || str_eq m.scope "conversation")
                && may_hear agent project m)))

pub keep_same {ℓ} :
    {A : Type ℓ} (p q : A → Bool) (xs : List A) → ((a : A) → p a ≡ q a) → keep p xs ≡ keep q xs
keep_same p q [] h = refl
keep_same p q (x ∷ xs) h = elim (Bool-cases (q x)) [
  | inl e ↦ rw (h x, e) (ap (λ r. x ∷ r) (keep_same p q xs h))
  | inr e ↦ rw (h x, e) (keep_same p q xs h)
]

-- The disjunctions of the filter, regrouped.
regroup_none :
    (o p t a s w c : Bool)
    → (o || (c || (w || false)))
      ≡ (o || (((p || t) && false) || (((a || s) && false) || ((w || c) && true))))
regroup_none o p t a s w c = ground arith

regroup_agent :
    (o p t a s w c x : Bool)
    → (o || ((a && x) || ((s && x) || ((c && x) || ((w && x) || false)))))
      ≡ (o || (((p || t) && false) || (((a || s) && x) || ((w || c) && (x || false)))))
regroup_agent o p t a s w c x = ground arith

regroup_both :
    (o p t a s w c x y : Bool)
    → (o
        || ((p && y)
            || ((t && y)
                || ((a && x) || ((s && x) || ((w && (x || y)) || ((c && (y || x)) || false)))))))
      ≡ (o || (((p || t) && y) || (((a || s) && x) || ((w || c) && (x || y)))))
regroup_both o p t a s w c x y = ground arith

-- With a project and no agent, the filter compares the project with the least importance.
unfoldable pub is_askable : Option ℕ → Option ℕ → Bool
is_askable agent project = is_some agent || not (is_some project)

every_type-filter :
    (q : Search)
    → every_type (filter_of q).args (filter_of q).clauses ≡ is_askable q.agent q.project
unfolding every_type build_scope_filter has_type parameter is_askable
every_type-filter q = by_cases q.agent q.project
  where
    by_cases :
        (a p : Option ℕ)
        → let f = filter_of (record q { agent = a; project = p }) in
          every_type f.args f.clauses ≡ is_askable a p
    by_cases none none = refl
    by_cases none (some p) = refl
    by_cases (some a) none = refl
    by_cases (some a) (some p) = refl

some_holds-filter :
    (q : Search) (m : Memory)
    → is_askable q.agent q.project ≡ true
    → some_holds (filter_of q).args m (filter_of q).clauses ≡ may_see q.agent q.project m
unfolding some_holds build_scope_filter holds parameter is_askable may_see
some_holds-filter q m = by_cases q.agent q.project
  where
    by_cases :
        (a p : Option ℕ)
        → is_askable a p ≡ true
        → let f = filter_of (record q { agent = a; project = p }) in
          some_holds f.args m f.clauses ≡ may_see a p m
    by_cases none none h =
        regroup_none (str_eq m.scope "organization") (str_eq m.scope "project")
          (str_eq m.scope "task") (str_eq m.scope "agent") (str_eq m.scope "session")
          (str_eq m.scope "working") (str_eq m.scope "conversation")
    by_cases none (some p) h = absurd (cc h)
    by_cases (some a) none h =
        regroup_agent (str_eq m.scope "organization") (str_eq m.scope "project")
          (str_eq m.scope "task") (str_eq m.scope "agent") (str_eq m.scope "session")
          (str_eq m.scope "working") (str_eq m.scope "conversation") (is_id m.agent a)
    by_cases (some a) (some p) h =
        regroup_both (str_eq m.scope "organization") (str_eq m.scope "project")
          (str_eq m.scope "task") (str_eq m.scope "agent") (str_eq m.scope "session")
          (str_eq m.scope "working") (str_eq m.scope "conversation") (is_id m.agent a)
          (is_id m.project p)

-- Retrieve finds what the agent may see in the project, in the order of the query and without repeats;
-- with a project and no agent it always fails.
pub retrieve-reference :
    (q : Search) (rows : List Memory)
    → retrieve q rows ≡ (
        if is_askable q.agent q.project
        then ok (
            deduplicate_for_context (
              take
                (limit_of 5 20 q.limit)
                (q.order (keep (λ m. is_retrievable q m && may_see q.agent q.project m) rows))))
        else err "operator does not exist: uuid = real")
unfolding retrieve
retrieve-reference q rows = elim (Bool-cases (is_askable q.agent q.project)) [
  | inl e ↦
      rw (every_type-filter q, e)
        (ap (λ found. ok (deduplicate_for_context (take (limit_of 5 20 q.limit) (q.order found))))
          (keep_same
            (λ m. is_retrievable q m && some_holds (filter_of q).args m (filter_of q).clauses)
            (λ m. is_retrievable q m && may_see q.agent q.project m) rows
            (λ m. ap (λ b. is_retrievable q m && b) (some_holds-filter q m e))))
  | inr e ↦ rw (every_type-filter q, e) refl
]
