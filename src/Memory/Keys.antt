-- ===== src/Memory/Keys.antt =====
-- What the tools do at the edges: a key that is a pattern, and a memory whose vector cannot be made.
use morign.Base.{
  inl, inr, Bool-cases, ◌≡◌, refl, ℕ, ◌+◌, Bool, true, false, Option, none, some, List, ◌∷◌, Text,
  ◌==◌, err, arith,
}
use morign.Memory.{
  new_memory, is_taken, insert_memory, restricted_to_owner, route_tier, is_number, Login, Context,
  owner_allowed, Memory, Table, Faults, MemoryError, failing, create_memory, delete_memory,
  delete_found, find_id, without, owner_id_from_context,
}
use morign.Memory.Tools.{
  action_deleted, tool_failed, get_my_memory_with_key, find_like, create_new, store_with,
  memory_forget, cast_oid,
}

eq_self : (n : ℕ) → (n == n) ≡ true
eq_self n = ground arith

is_number_self : (n : ℕ) (o : Option ℕ) → o ≡ some n → is_number n o ≡ true
is_number_self n none e = cc
is_number_self n (some m) e = ground arith

-- A user may act for himself.
own_allowed :
    (ctx : Context) (id : ℕ) → owner_id_from_context ctx ≡ some id → owner_allowed ctx id ≡ true
unfolding owner_allowed
own_allowed ctx id e =
    let self = is_number_self id (owner_id_from_context ctx) e in
    elim (Bool-cases (restricted_to_owner ctx)) [
      | inl restricted ↦ rw (owner_allowed, restricted, self) refl
      | inr free ↦ rw (owner_allowed, free) refl
    ]

module _ (ilike : Text → Text → Bool) where
  -- When the first memory of the table is one of the user and its key matches the pattern that the
  -- key of the request is, it is forgotten, also when it has another key.
  pub memory_forget_pattern :
      (f : Faults) (ctx : Context) (u : Login) (m : Memory) (ms : List Memory) (n : ℕ) {id c : ℕ}
      {key : Text}
      → ctx.user ≡ some u
      → u.oid ≡ some id
      → m.owner_id ≡ id
      → ilike m.key (c ∷ key) ≡ true
      → f.get ≡ none
      → f.delete ≡ none
      → memory_forget ilike f ctx (record { rows = m ∷ ms; next_id = n }) (c ∷ key)
        ≡ (record { rows = ms; next_id = n }, action_deleted (c ∷ key))
  unfolding memory_forget get_my_memory_with_key find_like delete_memory delete_found find_id
      without owner_allowed owner_id_from_context
  memory_forget_pattern f ctx u m ms n {id} {c} {key} login number mine like gets deletes =
      let self : owner_id_from_context ctx ≡ some id =
        rw (owner_id_from_context, login, number) refl in
      let allowed : owner_allowed ctx m.owner_id ≡ true = rw (mine) (own_allowed ctx id self) in
      let own : (m.owner_id == cast_oid u.oid) ≡ true = rw (mine, number, eq_self id) refl in
      rw
        (
          memory_forget,
          get_my_memory_with_key,
          login,
          gets,
          find_like,
          own,
          like,
          delete_memory,
          gets,
          find_id,
          eq_self m.id,
          delete_found,
          allowed,
          deletes,
          without,
          eq_self m.id,
        )
        refl

  abbrev draft : Login → Text → Text → Text → Text → Memory
  draft u tier key category content = record {
    id = 0;
    owner_id = cast_oid u.oid;
    key = key;
    cate = category;
    content = content;
    tier = tier;
    access_count = 0;
  }

  -- A new memory whose vector cannot be made is in the table, though the tool answers with an error.
  pub store_with_embed_failing :
      (score : Text → ℕ) (long_term short_term : ℕ) (f : Faults) (ctx : Context) (u : Login)
      (t : Table) (key category content : Text) {e : Text} {why : MemoryError}
      → get_my_memory_with_key ilike f ctx t key ≡ err why
      → f.create ≡ none
      → f.embed ≡ some e
      → is_taken
          (new_memory ctx t
            (draft u (route_tier (score content) long_term short_term) key category content))
          t.rows
        ≡ false
      → store_with ilike score long_term short_term f ctx u t key category content ≡ (
        record {
          rows =
              new_memory ctx t
                (draft u (route_tier (score content) long_term short_term) key category content)
              ∷ t.rows;
          next_id = t.next_id + 1;
        },
        tool_failed (failing e),
      )
  unfolding store_with create_new create_memory insert_memory
  store_with_embed_failing score long_term short_term f ctx u t key category content absent creates
        embeds free =
      rw (store_with, absent, create_new, create_memory, creates, free, insert_memory, embeds) refl
