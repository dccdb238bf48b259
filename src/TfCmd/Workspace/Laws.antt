-- ===== src/TfCmd/Workspace/Laws.antt =====
-- Which workspace is taken for a building block.
use building_block_runner.Prelude.{
  String, true, false, none, some, List, [], ◌∷◌, ◌≡◌, refl, ap, ◌++◌, ◌⊎◌, inl, inr, All,
  has_suffix, Bool-cases, arith,
}
use building_block_runner.TfCmd.Outside.{Result, ok, err, panic, workspace_list, workspace_select}
use building_block_runner.TfCmd.Exec.{Cmd, ◌>>=◌, ◌>>◌, pure, catch, ask}
use building_block_runner.TfCmd.Params.{GenericTfCmd}
use building_block_runner.TfCmd.Workspace.{
  find_workspace, select_found, select_listed, select_workspace,
}

-- Either no listed workspace ends with the building block's id and none is found, or the one
-- that is found is listed, ends with it, and no earlier one does.
find_workspace-first :
    (id : String) (listed : List String)
    → (find_workspace id listed ≡ none) × All (λ ws. has_suffix ws id ≡ false) listed
      ⊎ (before : List String) × (ws : String) × (after : List String) × (listed
          ≡ before ++ ws ∷ after)
        × (find_workspace id listed ≡ some ws)
        × (has_suffix ws id ≡ true)
        × All (λ earlier. has_suffix earlier id ≡ false) before
unfolding find_workspace
find_workspace-first id [] = inl (refl, tt)
find_workspace-first id (ws ∷ r) = elim (Bool-cases (has_suffix ws id)) [
  | inl fits ↦ inr ([], ws, r, refl, ground (arith, fits), fits, tt)
  | inr not_it ↦ elim (find_workspace-first id r) [
    | inl (nothing, rest) ↦ inl (ground (arith, not_it, nothing), (not_it, rest))
    | inr (before, ws', after, split, found, fits, earlier) ↦ inr (
      ws ∷ before,
      ws',
      after,
      ap (λ x. ws ∷ x) split,
      ground (arith, not_it, found),
      fits,
      (not_it, earlier),
    )
  ]
]

-- The state after the workspaces were listed, and the answer to a switch with the state after it.
abbrev pub after_list : GenericTfCmd → Cmd → Cmd
after_list c s = (ask workspace_list c.outside.list_workspaces s).1

abbrev pub switched : GenericTfCmd → String → Cmd → Result (Unit {0}) × Cmd
switched c ws = ask (workspace_select ws) (λ h. c.outside.select_workspace h ws)

-- What a switch is answered with: the building block's id, and the empty name where the switch fails.
abbrev pub after_switch : GenericTfCmd → Result (Unit {0}) → Result String
after_switch c (ok u) = ok c.building_block_id
after_switch c (err e) = ok ""
after_switch c panic = panic

-- The three ways that a selection among the listed workspaces can go.
unfoldable pub Selects : GenericTfCmd → List String → String → Cmd → Result String × Cmd → Type 0
Selects c available current s got =
    let id = c.building_block_id in
    (has_suffix current id ≡ true) × (got ≡ (ok current, s))
    ⊎ (has_suffix current id ≡ false)
      × All (λ ws. has_suffix ws id ≡ false) available
      × (got ≡ (ok "", s))
    ⊎ (has_suffix current id ≡ false)
      × ((before : List String) × (ws : String) × (after : List String) × (available
            ≡ before ++ ws ∷ after)
          × (has_suffix ws id ≡ true)
          × All (λ earlier. has_suffix earlier id ≡ false) before
          × (got ≡ (after_switch c (switched c ws s).0, (switched c ws s).1)))

select_found-some :
    (c : GenericTfCmd) (ws : String) (s : Cmd)
    → select_found c (some ws) s ≡ (after_switch c (switched c ws s).0, (switched c ws s).1)
unfolding select_found catch ◌>>=◌ pure
select_found-some c ws s = go (switched c ws s).0
  where
    go :
        (r : Result (Unit {0}))
        → catch ((λ t. (r, (switched c ws s).1)) >> pure c.building_block_id) (λ e. pure "") s
          ≡ (after_switch c r, (switched c ws s).1)
    go (ok u) = refl
    go (err e) = refl
    go panic = refl

select_listed-Selects :
    (c : GenericTfCmd) (available : List String) (current : String) (s : Cmd)
    → Selects c available current s (select_listed c (available, current) s)
unfolding Selects select_listed select_found pure
select_listed-Selects c available current s =
    elim (Bool-cases (has_suffix current c.building_block_id)) [
      | inl fits ↦ inl (fits, rw fits refl)
      | inr other ↦ elim (find_workspace-first c.building_block_id available) [
        | inl (nothing, rest) ↦ inr (inl (other, rest, rw (other, nothing) refl))
        | inr (before, ws, after, split, found, fits, earlier) ↦ inr (
            inr (
              other,
              (
                before,
                ws,
                after,
                split,
                fits,
                earlier,
                rw (other, found) (select_found-some c ws s),
              ),
            ))
      ]
    ]

-- Where OpenTofu lists the workspaces: if the current one ends with the building block's id, it is the
-- answer and nothing else is asked for; if none does, the answer is the empty name and nothing else is
-- asked for; and else the first listed one that ends with the id is switched to, which is answered by the
-- id, or by the empty name if the switch fails.
pub select_workspace-Selects :
    (c : GenericTfCmd) (available : List String) (current : String) (s : Cmd)
    → (c.outside.list_workspaces s.events).result ≡ ok (available, current)
    → Selects c available current (after_list c s) (select_workspace c s)
unfolding select_workspace ◌>>=◌ ask
select_workspace-Selects c available current s listed =
    rw listed (select_listed-Selects c available current (after_list c s))
