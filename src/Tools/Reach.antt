-- ===== src/Tools/Reach.antt =====
-- What a context sees and what it can call: the visible tools are callable, and nothing runs that
-- the policy does not allow.
use morign.Base.{
  ◌≡◌, ◌≢◌, ◌⊎◌, refl, ap, Bool, true, false, Option, none, some, List, [], ◌∷◌, ◌++◌, Text, map,
  is_empty, text_eq, text_eq_refl, text_eq_iff, lookup, contains, filter_by, All, All-append, arith,
  Bool-cases, Option-cases, inl, inr, lookup-insert_eq, ◌∙◌, lookup-insert_ne,
}
use morign.Tools.{
  Folding, to_lower, equal_fold, builtin_keeper, ToolDescriptor, Context, Invoker, ToolSet,
  Registry, invoker_names, tool_names, put_owner, put_owners, policy_for, source, registered,
  allows_source, allows,
}
use morign.Tools.Calls.{
  first_match, run, not_found, in_channel, or_run, dispatch, channel_candidates, tools_for,
}

-- The map has an invoker under the name, which is not empty.
pub record HasInvoker (m : List (Text × Invoker)) (n : Text) : Type 0 where
  pub named : is_empty n ≡ false
  pub bound : (inv : Invoker) × (lookup n m ≡ some inv)

-- Every tool that is shown has its invoker: the global and the restricted tools among the global
-- invokers, and those of a channel in the channel's container.
pub record IsWired (r : Registry) : Type 0 where
  pub tools_wired : All (λ t. HasInvoker r.invokers t.name) r.tools
  pub priv_wired : All (λ t. HasInvoker r.invokers t.name) r.priv_tools
  pub channels_wired :
      (ch : Text) (cs : ToolSet)
      → lookup ch r.channel_tools ≡ some cs
      → All (λ t. HasInvoker cs.invokers t.name) cs.tools

equal_fold_refl : (u : Folding) (s : Text) → equal_fold u s s ≡ true
unfolding equal_fold
equal_fold_refl u [] = refl
equal_fold_refl u (c ∷ s) = ground (arith, equal_fold_refl u s)

first_match_bound :
    (u : Folding) (n : Text) (m : List (Text × Invoker)) (inv : Invoker)
    → lookup n m ≡ some inv
    → (hit : Text × Invoker) × (first_match u n m ≡ some hit)
unfolding first_match lookup
first_match_bound u n [] inv e = cc
first_match_bound u n ((k, v) ∷ m) inv e = elim (Bool-cases (equal_fold u k n)) [
  | inl same ↦ ((k, v), rw same)
  | inr apart ↦ elim (Bool-cases (text_eq k n)) [
    | inl eq ↦ absurd (ground (arith, equal_fold_refl u n, text_eq_iff k n))
    | inr ne ↦
        let (hit, found) = first_match_bound u n m inv (ground arith) in (hit, rw apart found)
  ]
]

contains_lower :
    (u : Folding) (n : Text) (m : List (Text × Invoker)) (inv : Invoker) (ns : List Text)
    → lookup n m ≡ some inv
    → contains (map (to_lower u) (invoker_names m ++ ns)) (to_lower u n) ≡ true
unfolding lookup contains
contains_lower u n [] inv ns e = cc
contains_lower u n ((k, v) ∷ m) inv ns e =
    ground (arith, contains_lower u n m inv ns, text_eq_iff k n, text_eq_refl (to_lower u n))

-- A name that the loop passes has an owner afterwards, and owners stay.
put_owner_keeps :
    (u : Folding) (ch : Text) (ns : List Text) (owners : List (Text × Text)) (k o : Text)
    → lookup k owners ≡ some o
    → (o' : Text) × (lookup k (put_owner u ch ns owners) ≡ some o')
unfolding put_owner
put_owner_keeps u ch [] owners k o e = (o, e)
put_owner_keeps u ch (n ∷ ns) owners k o e = elim (Bool-cases (text_eq (to_lower u n) k)) [
  | inl same ↦ put_owner_keeps u ch ns _ k ch (lookup-insert_eq (to_lower u n) k ch owners same)
  | inr apart ↦
      put_owner_keeps u ch ns _ k o (lookup-insert_ne (to_lower u n) k ch owners apart ∙ e)
]

put_owner_owns :
    (u : Folding) (ch n : Text) (m : List (Text × Invoker)) (inv : Invoker)
    (owners : List (Text × Text))
    → lookup n m ≡ some inv
    → (o : Text) × (lookup (to_lower u n) (put_owner u ch (invoker_names m) owners) ≡ some o)
unfolding put_owner lookup
put_owner_owns u ch n [] inv owners e = cc
put_owner_owns u ch n ((k, v) ∷ m) inv owners e = elim (Bool-cases (text_eq k n)) [
  | inl same ↦
      let eq = (text_eq_iff k n).0 same in
      put_owner_keeps u ch (invoker_names m) _ (to_lower u n) ch (
        lookup-insert_eq (to_lower u k) (to_lower u n) ch owners
          ((text_eq_iff (to_lower u k) (to_lower u n)).1 (ap (to_lower u) eq)))
  | inr apart ↦ put_owner_owns u ch n m inv _ (ground arith)
]

put_owners_keeps :
    (u : Folding) (sets : List (Text × ToolSet)) (owners : List (Text × Text)) (k o : Text)
    → lookup k owners ≡ some o
    → (o' : Text) × (lookup k (put_owners u sets owners) ≡ some o')
unfolding put_owners
put_owners_keeps u [] owners k o e = (o, e)
put_owners_keeps u ((ch, cs) ∷ sets) owners k o e =
    let (a, ea) = put_owner_keeps u ch (invoker_names cs.invokers) owners k o e in
    let (b, eb) = put_owner_keeps u ch (tool_names cs.tools) _ k a ea in
    put_owners_keeps u sets _ k b eb

put_owners_owns :
    (u : Folding) (sets : List (Text × ToolSet)) (owners : List (Text × Text)) (ch n : Text)
    (cs : ToolSet) (inv : Invoker)
    → lookup ch sets ≡ some cs
    → lookup n cs.invokers ≡ some inv
    → (o : Text) × (lookup (to_lower u n) (put_owners u sets owners) ≡ some o)
unfolding put_owners lookup
put_owners_owns u [] owners ch n cs inv e f = cc
put_owners_owns u ((c, s) ∷ sets) owners ch n cs inv e f = elim (Bool-cases (text_eq c ch)) [
  | inl same ↦
      let eq : s ≡ cs = ground arith in
      let (a, ea) =
        put_owner_owns u c n s.invokers inv owners
          (ap (λ (q : ToolSet). lookup n q.invokers) eq ∙ f) in
      let (b, eb) = put_owner_keeps u c (tool_names s.tools) _ (to_lower u n) a ea in
      put_owners_keeps u sets _ (to_lower u n) b eb
  | inr apart ↦ put_owners_owns u sets _ ch n cs inv (ground arith) f
]

-- Calling the name runs an invoker.
abbrev pub IsCallable : Folding → Registry → Context → Text → Type 0
IsCallable u r ctx name = (key : Text) × (inv : Invoker) × (dispatch u r ctx name ≡ run key inv)

or_run_runs :
    (a : Option (Text × Invoker)) (b : Option (Text × Invoker)) (hit : Text × Invoker)
    → (a ≡ some hit) ⊎ (b ≡ some hit)
    → (key : Text) × (inv : Invoker) × (or_run a (or_run b not_found) ≡ run key inv)
or_run_runs (some (k, v)) b hit h = (k, v, refl)
or_run_runs none (some (k, v)) hit h = (k, v, refl)
or_run_runs none none hit (inl e) = cc
or_run_runs none none hit (inr e) = cc

dispatch_runs :
    (u : Folding) (r : Registry) (ctx : Context) (name : Text) (hit : Text × Invoker)
    → is_empty name ≡ false
    → registered u (policy_for u r ctx) name ≡ true
    → allows u (policy_for u r ctx) name ≡ true
    → (in_channel u r ctx name ≡ some hit) ⊎ (first_match u name r.invokers ≡ some hit)
    → IsCallable u r ctx name
unfolding dispatch
dispatch_runs u r ctx name hit e known allowed h =
    let (k, v, p) = or_run_runs (in_channel u r ctx name) (first_match u name r.invokers) hit h in
    (k, v, rw (dispatch, e, known, allowed, p))

global-IsCallable :
    (u : Folding) (r : Registry) (ctx : Context) (name : Text)
    → HasInvoker r.invokers name
    → allows u (policy_for u r ctx) name ≡ true
    → IsCallable u r ctx name
unfolding registered policy_for
global-IsCallable u r ctx name h allowed =
    let (inv, e) = h.bound in
    let (hit, found) = first_match_bound u name r.invokers inv e in
    dispatch_runs u r ctx name hit h.named
      (rw (registered, policy_for, contains_lower u name r.invokers inv (tool_names r.tools) e))
      allowed (inr found)

channel-IsCallable :
    (u : Folding) (r : Registry) (ctx : Context) (cs : ToolSet) (name : Text)
    → is_empty ctx.channel ≡ false
    → lookup ctx.channel r.channel_tools ≡ some cs
    → HasInvoker cs.invokers name
    → allows u (policy_for u r ctx) name ≡ true
    → IsCallable u r ctx name
unfolding registered policy_for
channel-IsCallable u r ctx cs name here at h allowed =
    let (inv, e) = h.bound in
    let (hit, found) = first_match_bound u name cs.invokers inv e in
    let (o, owned) = put_owners_owns u r.channel_tools [] ctx.channel name cs inv at e in
    dispatch_runs u r ctx name hit h.named (ground (arith, owned)) allowed
      (inl (rw (here, at, found)))

All-weaken :
    {A : Type 0} (P Q : A → Type 0) (xs : List A) → ((a : A) → P a → Q a) → All P xs → All Q xs
All-weaken P Q [] f h = tt
All-weaken P Q (x ∷ xs) f h = (f x h.0, All-weaken P Q xs f h.1)

All-filter_by :
    {A : Type 0} (p : A → Bool) (P : A → Type 0) (xs : List A)
    → All (λ a. p a ≡ true → P a) xs
    → All P (filter_by p xs)
All-filter_by p P [] h = tt
All-filter_by p P (x ∷ xs) h = elim (Bool-cases (p x)) [
  | inl yes' ↦ rw yes' (h.0 yes', All-filter_by p P xs h.1)
  | inr no' ↦ rw no' (All-filter_by p P xs h.1)
]

candidates-IsCallable :
    (u : Folding) (r : Registry) (ctx : Context)
    → IsWired r
    → All
        (λ t. allows u (policy_for u r ctx) t.name ≡ true → IsCallable u r ctx t.name)
        (channel_candidates r ctx)
candidates-IsCallable u r ctx wired = elim (Bool-cases (is_empty ctx.channel)) [
  | inl none_set ↦ rw none_set tt
  | inr here ↦ elim (Option-cases (lookup ctx.channel r.channel_tools)) [
    | inl gone ↦ rw (here, gone) tt
    | inr (cs, at) ↦
        rw (here, at)
          (All-weaken _ _ cs.tools (λ t h a. channel-IsCallable u r ctx cs t.name here at h a)
            (wired.channels_wired ctx.channel cs at))
  ]
]

-- In a registry whose shown tools have their invokers, every tool that a context is shown can be
-- called by its name in that context: an invoker runs.
pub tools_for-IsCallable :
    (u : Folding) (r : Registry) (ctx : Context)
    → IsWired r
    → All (λ t. IsCallable u r ctx t.name) (tools_for u r ctx)
unfolding tools_for
tools_for-IsCallable u r ctx wired =
    let global : (t : ToolDescriptor)
        → HasInvoker r.invokers t.name
        → allows u (policy_for u r ctx) t.name ≡ true
        → IsCallable u r ctx t.name =
      λ t h a. global-IsCallable u r ctx t.name h a in
    All-filter_by _ _ _ (
      All-append _ r.tools _ (All-weaken _ _ r.tools global wired.tools_wired) (
        All-append _ r.priv_tools _ (All-weaken _ _ r.priv_tools global wired.priv_wired)
          (candidates-IsCallable u r ctx wired)))

-- Whatever runs was allowed: the policy knows the name and allows it.
pub dispatch_allowed :
    (u : Folding) (r : Registry) (ctx : Context) (name key : Text) (inv : Invoker)
    → dispatch u r ctx name ≡ run key inv
    → (registered u (policy_for u r ctx) name ≡ true) × (allows u (policy_for u r ctx) name ≡ true)
unfolding dispatch
dispatch_allowed u r ctx name key inv e = (ground arith, ground arith)

denied :
    (u : Folding) (r : Registry) (ctx : Context) (name n : Text)
    → lookup (to_lower u name) r.categories ≡ some builtin_keeper
    → ctx.keeper ≡ false
    → to_lower u n ≡ to_lower u name
    → allows u (policy_for u r ctx) n ≡ false
unfolding allows source policy_for allows_source
denied u r ctx name n restricted outsider e =
    rw (allows, source, policy_for, e, restricted, allows_source, outsider)

All-of : {A : Type 0} (P : A → Type 0) (xs : List A) → ((a : A) → P a) → All P xs
All-of P [] f = tt
All-of P (x ∷ xs) f = (f x, All-of P xs f)

hidden :
    (u : Folding) (r : Registry) (ctx : Context) (name : Text)
    → lookup (to_lower u name) r.categories ≡ some builtin_keeper
    → ctx.keeper ≡ false
    → All (λ t. to_lower u t.name ≢ to_lower u name) (tools_for u r ctx)
unfolding tools_for
hidden u r ctx name restricted outsider =
    let shown : ToolDescriptor → Bool = λ t. allows u (policy_for u r ctx) t.name in
    let Other : ToolDescriptor → Type 0 = λ t. to_lower u t.name ≢ to_lower u name in
    let ts = r.tools ++ (r.priv_tools ++ channel_candidates r ctx) in
    All-filter_by shown Other ts (
      All-of {A = ToolDescriptor} (λ t. shown t ≡ true → Other t) ts
        (λ t a e. cc (denied u r ctx name t.name restricted outsider e, a)))

-- A restricted tool does not run for a caller who is not a keeper, under any spelling of its name
-- that lowers to it, and it is not shown.
pub keeper_only :
    (u : Folding) (r : Registry) (ctx : Context) (name : Text)
    → lookup (to_lower u name) r.categories ≡ some builtin_keeper
    → ctx.keeper ≡ false
    → ((key : Text) (inv : Invoker) → dispatch u r ctx name ≢ run key inv)
      × All (λ t. to_lower u t.name ≢ to_lower u name) (tools_for u r ctx)
unfolding allows source policy_for
keeper_only u r ctx name restricted outsider = (
  λ key inv e.
      let allowed = (dispatch_allowed u r ctx name key inv e).1 in
      cc (denied u r ctx name name restricted outsider refl, allowed),
  hidden u r ctx name restricted outsider,
)
