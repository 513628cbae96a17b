-- ===== src/Alerting/Evaluation.antt =====
-- internal/server/alerting/evaluator.go: one evaluation of a rule on its hosts, and the sweep that settles
-- the alerts of disabled rules and of hosts that a rule no longer matches. A query that fails gives no
-- row, and each row of alert_states has its host in the table hosts.
use server_monitor.Common.{
  ℕ, Bool, true, false, not, ◌&&◌, ◌==◌, if◌then◌else◌, Option, none, some, List, [], ◌∷◌, map, any,
  ℕ_discrete, is_some,
}
use server_monitor.Common.Assoc.{lookup, insert}
use server_monitor.Alerting.{
  Rule, State, ok, pending, firing, AlertState, Key, Channels, World, Status, done, failed, exec,
  transition,
}
use server_monitor.Alerting.Floats.{compare}

-- The values of a rule's groups on a host, by the printed form of their labels.
abbrev pub Groups : Type 0
Groups = List (List ℕ × ℕ)

unfoldable pub Labels-discrete : Discrete (List ℕ)
Labels-discrete = hlevel ℕ_discrete

abbrev pub is_active : State → Bool
is_active ok = false
is_active pending = true
is_active firing = true

-- The test of a row: it is the rule's on the host, pending or firing, and its group is gone.
abbrev pub row_is_stale : ℕ → ℕ → Groups → Key × AlertState → Bool
row_is_stale rule host present ((rule', host', label), st) =
    rule' == rule
    && host' == host
    && is_active st.state
    && not (is_some (lookup Labels-discrete label present))

-- staleStates, for the rows that the query gave.
unfoldable pub stale_states : ℕ → ℕ → Groups → List (Key × AlertState) → List (List ℕ)
stale_states rule host present [] = []
stale_states rule host present ((key, st) ∷ rows) =
    let rest = stale_states rule host present rows in
    if row_is_stale rule host present (key, st) then key.2 ∷ rest else rest

-- The orphan test of sweepOrphans: the rule under which the row is settled.
unfoldable pub orphan_rule : List (ℕ × Rule) → List (ℕ × List ℕ) → List ℕ → Key → Option Rule
orphan_rule rules matched known key = elim (lookup ℕ_discrete key.0 rules) [
  | none ↦ none
  | some rule ↦
      if not rule.enabled
      then some rule
      else if not (any (◌==◌ key.0) known)
      then none
      else elim (lookup ℕ_discrete key.0 matched) [
        | none ↦ some rule
        | some hosts ↦ if any (◌==◌ key.1) hosts then none else some rule
      ]
]

abbrev pub Orphan : Type 0
Orphan = Rule × Key × ℕ

abbrev pub cons_orphan : Bool → Option Rule → Key → ℕ → List Orphan → List Orphan
cons_orphan true (some rule) key value os = (rule, key, value) ∷ os
cons_orphan true none key value os = os
cons_orphan false rule key value os = os

unfoldable pub orphans :
    List (ℕ × Rule) → List (ℕ × List ℕ) → List ℕ → List (Key × AlertState) → List Orphan
orphans rules matched known [] = []
orphans rules matched known ((key, st) ∷ rows) =
    cons_orphan (is_active st.state) (orphan_rule rules matched known key) key st.last_value
      (orphans rules matched known rows)

unfoldable pub rules_by_id : List Rule → List (ℕ × Rule) → List (ℕ × Rule)
rules_by_id [] m = m
rules_by_id (r ∷ rs) m = rules_by_id rs (insert ℕ_discrete r.id r m)

-- The hosts of a rule that is enabled.
abbrev pub matched_hosts :
    (Rule → Option (List (ℕ × Option Groups))) → Rule → Option (List (ℕ × Option Groups))
matched_hosts hosts r = if r.enabled then hosts r else none

module _ (fails : ℕ → Bool) where
  -- The loop over the groups; an error ends it.
  unfoldable pub evaluate_groups : Rule → ℕ → ℕ → Channels → Groups → World → World × Status
  evaluate_groups r host now cs [] w = (w, done)
  evaluate_groups r host now cs ((label, value) ∷ groups) w =
      let (w', s) =
        transition fails r (r.id, host, label) (compare r.comparator r.threshold value) value now cs
          w in
      let rest = evaluate_groups r host now cs groups w' in
      elim s [ done ↦ rest | failed ↦ (w', failed) ]

  unfoldable pub settle_stale : Rule → ℕ → ℕ → Channels → List (List ℕ) → World → World × Status
  settle_stale r host now cs [] w = (w, done)
  settle_stale r host now cs (label ∷ labels) w =
      let (w', s) = transition fails r (r.id, host, label) false 0 now cs w in
      let rest = settle_stale r host now cs labels w' in
      elim s [ done ↦ rest | failed ↦ (w', failed) ]

  -- The body of evaluateRule's loop over the hosts.
  unfoldable pub evaluate_host : Rule → ℕ → ℕ → Channels → Option Groups → World → World × Status
  evaluate_host r host now cs none w = (w, failed)
  evaluate_host r host now cs (some groups) w =
      let (w₁, s) = evaluate_groups r host now cs groups w in
      let (w₂, unread) = exec fails (λ u. u) w₁ in
      let settled = settle_stale r host now cs (stale_states r.id host groups w₂.states) w₂ in
      elim s [ failed ↦ (w₁, failed) | done ↦ if unread then (w₂, failed) else settled ]

  -- evaluateRule; what queryGroups finds on each host is given.
  unfoldable pub evaluate_rule :
      Rule → ℕ → Channels → List (ℕ × Option Groups) → World → World × Status
  evaluate_rule r now cs [] w = (w, done)
  evaluate_rule r now cs ((host, groups) ∷ hosts) w =
      let (w', s) = evaluate_host r host now cs groups w in
      let rest = evaluate_rule r now cs hosts w' in elim s [ done ↦ rest | failed ↦ (w', failed) ]

  -- The second loop of sweepOrphans: an error is logged, and the loop goes on.
  unfoldable pub settle_orphans : ℕ → Channels → List Orphan → World → World
  settle_orphans now cs [] w = w
  settle_orphans now cs ((rule, key, value) ∷ os) w =
      settle_orphans now cs os (transition fails rule key false value now cs w).0

  unfoldable pub sweep_orphans :
      List (ℕ × Rule) → List (ℕ × List ℕ) → List ℕ → ℕ → Channels → World → World
  sweep_orphans rules matched known now cs w =
      let (w', unread) = exec fails (λ u. u) w in
      if unread then w' else settle_orphans now cs (orphans rules matched known w'.states) w'

  -- The loop of evaluateAll over the rules; what matchedHosts and queryGroups give is a parameter, and a
  -- pass reads the clock once. It keeps the hosts matched by rule, and the rules whose hosts are known.
  unfoldable pub evaluate_rules :
      (Rule → Option (List (ℕ × Option Groups)))
      → ℕ
      → Channels
      → List Rule
      → List (ℕ × List ℕ)
      → List ℕ
      → World
      → List (ℕ × List ℕ) × List ℕ × World
  evaluate_rules hosts now cs [] matched known w = (matched, known, w)
  evaluate_rules hosts now cs (r ∷ rs) matched known w = elim (matched_hosts hosts r) [
    | none ↦ evaluate_rules hosts now cs rs matched known w
    | some hs ↦
        evaluate_rules hosts now cs rs (insert ℕ_discrete r.id (map (λ h. h.0) hs) matched)
          (r.id ∷ known) (evaluate_rule r now cs hs w).0
  ]

  -- evaluateAll, once the rules and the channels are loaded.
  unfoldable pub evaluate_all :
      (Rule → Option (List (ℕ × Option Groups))) → ℕ → Channels → List Rule → World → World
  evaluate_all hosts now cs rs w =
      let (matched, known, w') = evaluate_rules hosts now cs rs [] [] w in
      sweep_orphans (rules_by_id rs []) matched known now cs w'
