-- ===== src/Memory/Tools.antt =====
-- pkg/services/stores/convo_x.go: the tools of a model for the memories of its user. `ilike key
-- pattern` stands for the operator of the database that a key is looked up with. Whether the
-- content is shown and how the list is sorted are left out.
use morign.Base.{
  ◌+◌, ℕ, Bool, false, ◌&&◌, Option, none, some, List, [], ◌∷◌, Text, codes, is_empty,
  if◌then◌else◌, ◌==◌, ltb, map, ℤ, pos, negsuc, Result, ok, err,
}
use morign.Memory.{
  promote_tier, Query, Login, Context, Memory, Table, Faults, MemoryError, need_login, not_found,
  failing, ConvoMemorySpec, default_memory_limit, max_memory_limit, list_memory, create_memory,
  delete_memory, route_tier,
}

-- What a tool answers.
pub data Answer : Type 0 where
  listed : List Memory → Answer
  action_updated action_created action_deleted action_not_found : Text → Answer
  tool_failed call_failed : MemoryError → Answer
  missing_argument : Text → Answer

-- The limit of InvokerForMemoryList.
unfoldable pub list_limit : ℤ → ℕ
list_limit (negsuc l) = default_memory_limit
list_limit (pos l) =
    if ltb 0 l
    then (if ltb max_memory_limit l then max_memory_limit else l)
    else default_memory_limit

-- ListMyMomory
unfoldable pub list_my_memory :
    Query → Context → ConvoMemorySpec → List Memory → Result MemoryError (List Memory)
unfolding list_memory
list_my_memory q ctx spec rows = elim ctx.user [
  | none ↦ err need_login
  | some u ↦ ok (list_memory q ctx (record spec { owner_id = u.oid }) rows)
]

abbrev list_spec : ℤ → Text → Text → ConvoMemorySpec
list_spec limit category tier = record {
  owner_id = none;
  is_owner = false;
  key = [];
  cate = category;
  tier = tier;
  limit = list_limit limit;
}

-- InvokerForMemoryList
unfoldable pub memory_list : Query → Context → ℤ → Text → Text → List Memory → Answer
unfolding list_my_memory list_limit
memory_list q ctx limit category tier rows =
    elim (list_my_memory q ctx (list_spec limit category tier) rows) [
      | err e ↦ tool_failed e
      | ok ms ↦ listed ms
    ]

-- oid.Cast of the login's number: 0 when it is no valid one.
abbrev pub cast_oid : Option ℕ → ℕ
cast_oid none = 0
cast_oid (some id) = id

module _ (ilike : Text → Text → Bool) where
  unfoldable pub find_like : ℕ → Text → List Memory → Option Memory
  find_like owner key [] = none
  find_like owner key (m ∷ ms) =
      if m.owner_id == owner && ilike m.key key then some m else find_like owner key ms

  -- GetMyMemoryWithKey
  unfoldable pub get_my_memory_with_key :
      Faults → Context → Table → Text → Result MemoryError Memory
  unfolding find_like
  get_my_memory_with_key f ctx t key = elim ctx.user [
    | none ↦ err need_login
    | some u ↦ elim f.get [
      | some e ↦ err (failing e)
      | none ↦ elim (find_like (cast_oid u.oid) key t.rows) [ none ↦ err not_found | some m ↦ ok m ]
    ]
  ]

  abbrev rewritten : ℕ → Text → Text → Memory → Memory
  rewritten id category content m =
      if m.id == id then record m { cate = category; content = content } else m

  -- The memory that is there gets the category and the content.
  unfoldable pub update_existing : Faults → Table → Memory → Text → Text → Text → Table × Answer
  update_existing f t m key category content = elim f.update [
    | some e ↦ (t, tool_failed (failing e))
    | none ↦ (record t { rows = map (rewritten m.id category content) t.rows }, action_updated key)
  ]

  -- A memory is made, in the tier of its score.
  unfoldable pub create_new :
      Faults → Context → Table → ℕ → Text → Text → Text → Text → Table × Answer
  unfolding create_memory
  create_new f ctx t owner tier key category content =
      let r = create_memory f ctx t (record {
        id = 0;
        owner_id = owner;
        key = key;
        cate = category;
        content = content;
        tier = tier;
        access_count = 0;
      }) in
      (r.0, elim r.1 [ ok id ↦ action_created key | err e ↦ tool_failed e ])

  -- InvokerForMemoryStore, once its arguments are there. `score` is EvaluateImportance, with the two
  -- thresholds of the settings.
  unfoldable pub store_with :
      (Text → ℕ) → ℕ → ℕ → Faults → Context → Login → Table → Text → Text → Text → Table × Answer
  unfolding get_my_memory_with_key update_existing create_new route_tier
  store_with score long_term short_term f ctx u t key category content =
      elim (get_my_memory_with_key f ctx t key) [
        | ok m ↦ update_existing f t m key category content
        | err e ↦
            create_new f ctx t (cast_oid u.oid) (route_tier (score content) long_term short_term)
              key category content
      ]

  -- InvokerForMemoryStore, for the requester's login and the three arguments.
  unfoldable pub store_for :
      (Text → ℕ)
      → ℕ
      → ℕ
      → Faults
      → Context
      → Option Login
      → Table
      → Text
      → Text
      → Text
      → Table × Answer
  unfolding store_with
  store_for score long_term short_term f ctx none t key category content =
      (t, call_failed need_login)
  store_for score long_term short_term f ctx (some u) t [] category content =
      (t, missing_argument (codes "key"))
  store_for score long_term short_term f ctx (some u) t (c ∷ key) category [] =
      (t, missing_argument (codes "content"))
  store_for score long_term short_term f ctx (some u) t (c ∷ key) category (d ∷ content) =
      store_with score long_term short_term f ctx u t (c ∷ key)
        (if is_empty category then codes "custom" else category) (d ∷ content)

  -- InvokerForMemoryStore
  unfoldable pub memory_store :
      (Text → ℕ) → ℕ → ℕ → Faults → Context → Table → Text → Text → Text → Table × Answer
  unfolding store_for
  memory_store score long_term short_term f ctx t key category content =
      store_for score long_term short_term f ctx ctx.user t key category content

  -- InvokerForMemoryForget
  unfoldable pub memory_forget : Faults → Context → Table → Text → Table × Answer
  unfolding get_my_memory_with_key delete_memory
  memory_forget f ctx t [] = (t, missing_argument (codes "key"))
  memory_forget f ctx t (c ∷ key) = elim (get_my_memory_with_key f ctx t (c ∷ key)) [
    | err e ↦ (t, action_not_found (c ∷ key))
    | ok m ↦
        let r = delete_memory f ctx t m.id in
        (r.0, elim r.1 [ some e ↦ tool_failed e | none ↦ action_deleted (c ∷ key) ])
  ]

abbrev pub tier_or : Text → Text → Text
tier_or old [] = old
tier_or old (c ∷ new) = c ∷ new

-- What a recalled memory becomes.
abbrev pub recalled : ℕ → ℕ → Memory → Memory
recalled w2s s2l m = record m {
  access_count = m.access_count + 1;
  tier = tier_or m.tier (promote_tier m.tier (m.access_count + 1) w2s s2l);
}

abbrev replaced : Memory → Memory → Memory
replaced new m = if m.id == new.id then new else m

-- reinforceMemory: an error of the update is only logged.
unfoldable pub reinforce_memory : ℕ → ℕ → Faults → Table → Memory → Table
unfolding promote_tier
reinforce_memory w2s s2l f t m = elim f.update [
  | some e ↦ t
  | none ↦ record t { rows = map (replaced (recalled w2s s2l m)) t.rows }
]
