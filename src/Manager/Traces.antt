-- ===== src/Manager/Traces.antt =====
-- project/graph/graph_manager.cpp: sequences of calls, and when the runtime sees a graph.
use server_entry.Prelude.{
  Bool, true, false, List, [], ◌∷◌, ◌++◌, Option, none, some, ◌≡◌, refl, sym, ◌∙◌, subst,
  Bool-cases, inl, inr,
}
use server_entry.Strings.{Status, ok, invalid_state, Bytes}
use server_entry.Strings.Update.{is_ok}
use server_entry.Strings.Intern.{ok_by}
use server_entry.Graph.{Graph}
use server_entry.Manager.Checkpoint.{Memory, Reading}
use server_entry.Manager.{
  Manager, BuildMode, runnable_graph, begin_build, complete_build, load_compiled_checkpoint,
  load_source_checkpoint,
}
use server_entry.Manager.Loading.{load_compiled_checkpoint_lem}

-- A call that changes the state that the runtime sees.
pub data Call : Type 0 where
  begun : BuildMode → Call
  completed : Bool → Call
  loaded : Memory → Reading → Call
  sources_loaded : Status → Call

module _ (sha256 : Bytes → Bytes) where
  abbrev pub step : Call → Manager → Manager
  step (begun mode) m = (begin_build mode m).0
  step (completed success) m = complete_build success m
  step (loaded a file) m = (load_compiled_checkpoint sha256 a file m).0
  step (sources_loaded status) m = (load_source_checkpoint status m).0

  abbrev pub run : List Call → Manager → Manager
  run [] m = m
  run (c ∷ cs) m = run cs (step c m)

  -- Whether a call makes the graph runnable.
  abbrev pub publishes : Call → Manager → Bool
  publishes (begun mode) m = false
  publishes (completed success) m = success
  publishes (loaded a file) m = is_ok (load_compiled_checkpoint sha256 a file m).1
  publishes (sources_loaded status) m = false

  -- What runnable_graph answers where a graph is runnable, and where none is.
  abbrev pub seen : Bool → Manager → Option Graph × Status
  seen true m = (some m.graph, ok)
  seen false m = (none, invalid_state)

  run-append :
      (cs : List Call) (c : Call) (m : Manager) → run (cs ++ (c ∷ [])) m ≡ step c (run cs m)
  run-append [] c m = refl
  run-append (x ∷ cs) c m = run-append cs c (step x m)

  after_load :
      (a : Memory) (file : Reading) (m : Manager)
      → runnable_graph (load_compiled_checkpoint sha256 a file m).0
        ≡ seen
            (is_ok (load_compiled_checkpoint sha256 a file m).1)
            (load_compiled_checkpoint sha256 a file m).0
  after_load a file m =
      let r = load_compiled_checkpoint sha256 a file m in
      elim (load_compiled_checkpoint_lem sha256 a file m) [
        | inl l ↦ l.1 ∙ rw (l.0) refl
        | inr u ↦ elim (Bool-cases (is_ok r.1)) [
          | inl h ↦ absurd (u.0 (ok_by r.1 h))
          | inr h ↦ u.2 ∙ rw h refl
        ]
      ]

  after_step :
      (c : Call) (m : Manager) → runnable_graph (step c m) ≡ seen (publishes c m) (step c m)
  unfolding runnable_graph begin_build complete_build load_source_checkpoint
  after_step (begun mode) m = refl
  after_step (completed true) m = refl
  after_step (completed false) m = refl
  after_step (sources_loaded status) m = refl
  after_step (loaded a file) m = after_load a file m

  -- Behind any sequence of calls the runtime sees the graph exactly where the last call completed a
  -- build with success or loaded a compiled checkpoint with success.
  pub runnable_graph-run :
      (cs : List Call) (c : Call) (m : Manager)
      → runnable_graph (run (cs ++ (c ∷ [])) m)
        ≡ seen (publishes c (run cs m)) (run (cs ++ (c ∷ [])) m)
  runnable_graph-run cs c m =
      subst (λ n. runnable_graph n ≡ seen (publishes c (run cs m)) n) (sym (run-append cs c m))
        (after_step c (run cs m))
