-- ===== src/Judge/Tests.antt =====
-- Two testdata in two stages, with a special judge, pushed onto an empty graph and judged.
use tioj_judge.Base.{
  ℕ, ◌≡◌, refl, ◌<◌, Bool, true, false, List, [], ◌∷◌, Option, some, none, arith, length, not, ap,
  ◌≢◌, ◌+◌,
}
use tioj_judge.Base.Int.{pos}
use tioj_judge.Verdict.{gcc_cpp_17, python3}
use tioj_judge.Submission.{Submission, TestdataItem, specjudge_old, no_interlib, custom_summary}
use tioj_judge.Graph.{Graph, insert_task_list}
use tioj_judge.Graph.Count.{id_count, edge_count, count, zeros}
use tioj_judge.Graph.Inv.{Inv}
use tioj_judge.Push.{
  Build, perform, perform_all, local_entry, modify_local, drop_local, link_entries,
}
use tioj_judge.Push.Plan.{
  plan, clamp_stages, testdata_ops, stage_between, all_compile_ops, first_non_prob, compile_ops,
  insert_executes, insert_scorings,
}
use tioj_judge.Push.Submit.{push_graph, push_graph-Inv, Drawn}
use tioj_judge.Pool.{Fork, started}
use tioj_judge.Loop.Handles.{Kept, Calm}
use tioj_judge.Loop.{Handlers, Loop, Event, is_started, pop, wait}
use tioj_judge.Judge.{InRange, Judge, pushed, Reach, start, step, initial}
use tioj_judge.Judge.Reachable.{Sound, reachable-Sound, reachable-steps, reachable-not_stuck}

abbrev item : TestdataItem
item = record {
  vss = pos 65536;
  rss = pos 0;
  output = pos 1024;
  time = pos 1000000;
  ignore_verdict = false;
  td_groups = 0 ∷ [];
}

abbrev sub : Submission
sub = record {
  submission_internal_id = 7;
  submission_id = 70;
  contest_id = 0;
  priority = pos 5;
  submission_time = pos 0;
  submitter_id = 1;
  submitter_name = "a";
  submitter_nickname = "b";
  lang = gcc_cpp_17;
  problem_id = 3;
  specjudge_type = specjudge_old;
  interlib_type = no_interlib;
  summary_type = custom_summary;
  specjudge_lang = gcc_cpp_17;
  summary_lang = python3;
  problem_prog_lang = gcc_cpp_17;
  stages = 2;
  problem_prog_stages = 1 ∷ [];
  judge_between_stages = true;
  judge_abnormally_terminated = false;
  specjudge_re_as_wa = false;
  sandbox_strict = false;
  process_limit = 1;
  testdata = item ∷ item ∷ [];
  group_score = pos 100 ∷ [];
  skip_group = true;
  report_intermediate_stage = false;
  remove_submission = true;
}

-- Every second task that is set up is skipped; the log holds the ids of the tasks in the order in which
-- they are finalized.
abbrev logger : Handlers
logger = record {
  State = Bool × List ℕ;
  Outcome = ℕ;
  no_result = 0;
  setup = λ t s. (s.0, (not s.0, s.1));
  finalize = λ t o s. (s.0, t.id ∷ s.1);
}

abbrev empty_graph : Graph
empty_graph = record { task_list = []; task_queue = [] }

sub-InRange : InRange sub
unfolding clamp_stages
sub-InRange s e = ground arith

abbrev nothing : Build
nothing = record { task_count = 0; local = []; graph = empty_graph }

abbrev or_nothing : Option Build → Build
or_nothing none = nothing
or_nothing (some b) = b

abbrev built : Build
built = or_nothing (push_graph sub 0 empty_graph)

push-some : push_graph sub 0 empty_graph ≡ some built
unfolding push_graph perform_all perform local_entry modify_local drop_local link_entries
    insert_task_list plan clamp_stages testdata_ops stage_between all_compile_ops first_non_prob
    compile_ops insert_executes insert_scorings
push-some = refl

pushed_once : Judge logger 2
pushed_once = record {
  task_count = built.task_count;
  loop = record {
    graph = built.graph;
    running = [];
    handles = [];
    failed = none;
    users = 100;
    results = 0;
    state = (true, []);
  };
}

pushed_once-Reach : Reach logger 2 (true, []) pushed_once
unfolding pushed_once
pushed_once-Reach =
    step (initial logger 2 (true, [])) pushed_once start
      (pushed sub (initial logger 2 (true, [])) built sub-InRange push-some)

reachable-Sound_example : Sound logger 2 pushed_once
reachable-Sound_example = reachable-Sound logger 2 (true, []) pushed_once pushed_once-Reach

reachable-steps_example :
    ((s : Submission)
      → InRange s
      → (b : Build) × (push_graph s built.task_count built.graph ≡ some b) × (b.local ≡ []))
    × ((fork : Fork)
        → 0 < 2
        → 0 < length built.graph.task_queue
        → (l : Loop logger) × (pop logger fork pushed_once.loop ≡ some l)
          × (Kept logger pushed_once.loop
              → Calm logger (is_started fork) pushed_once.loop
              → Kept logger l))
    × ((event : Event logger)
        → 0 < 0 + 0
        → (l : Loop logger) × (wait logger event pushed_once.loop ≡ some l)
          × (Kept logger pushed_once.loop → Kept logger l))
unfolding push_graph pushed_once
reachable-steps_example =
    reachable-steps logger 2 (true, []) pushed_once pushed_once-Reach (omega arith)

length-built : length built.graph.task_list ≡ 13
unfolding push_graph perform_all perform local_entry modify_local drop_local link_entries
    insert_task_list plan clamp_stages testdata_ops stage_between all_compile_ops first_non_prob
    compile_ops insert_executes insert_scorings
length-built = refl

-- The kernel always ends the last task that started.
abbrev last_first : ℕ → Loop logger → Event logger
last_first n l = record { fork = started 3 40; ready = 0; choice = 0; outcome = 0 }

some_task : pushed_once.loop.graph.task_list ≢ []
unfolding pushed_once
some_task e = let n = ap length e in omega (arith, n, length-built)

reachable-not_stuck_example : (x : ℕ) × (0 < count x built.graph.task_queue + count x [])
unfolding pushed_once
reachable-not_stuck_example =
    reachable-not_stuck logger 2 (true, []) pushed_once pushed_once-Reach some_task

empty-Inv : Inv (λ x. 0) [] empty_graph
unfolding id_count edge_count count zeros
empty-Inv = record {
  distinct = λ x. omega arith;
  degree = tt;
  rising = tt;
  targets = λ x i. absurd (omega arith);
  ready = λ x. refl;
}

empty-Drawn : Drawn 4 empty_graph
unfolding id_count
empty-Drawn x i = absurd (omega arith)

push_graph-Inv_example :
    (b : Build) × (level : ℕ → ℕ) × (push_graph sub 4 empty_graph ≡ some b)
    × (b.local ≡ [])
    × Inv level [] b.graph
    × Drawn b.task_count b.graph
push_graph-Inv_example =
    push_graph-Inv sub (λ x. 0) [] 4 empty_graph sub-InRange empty-Inv empty-Drawn
