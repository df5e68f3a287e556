-- ===== src/Paths/Boxes.antt =====
-- That the boxes of src/tioj/paths.cpp are kept apart: the task can be read off the path of its box.
use mathlib.Core.List.{append_assoc}
use tioj_judge.Base.{
  ℕ, suc, ◌≡◌, ◌∙◌, refl, sym, ap, false, List, [], ◌∷◌, ◌++◌, arith, ◌==◌, if◌then◌else◌, length,
  get_or, drop, All,
}
use tioj_judge.Base.Int.{pos}
use tioj_judge.Base.Text.{chars}
use tioj_judge.Graph.{CompileSubtask, userprog, specjudge, summary_prog, probprog}
use tioj_judge.Paths.{
  Name, join, to_string, digits, pad_int, submission_run_path, compile_box_path, execute_box_path,
  scoring_box_path, summary_box_path,
}
use tioj_judge.Paths.Numbers.{value_from, value_from-pad_int, pad_int-IsDigit, IsDigit}

-- The tasks that have a box; ids, testdata and stages are not negative.
pub data TaskBox : Type 0 where
  compile_box : ℕ → CompileSubtask → TaskBox
  execute_box : ℕ → ℕ → ℕ → TaskBox
  scoring_box : ℕ → ℕ → ℕ → TaskBox
  summary_box : ℕ → TaskBox

unfoldable pub path_of : List Name → TaskBox → List Name
unfolding compile_box_path execute_box_path scoring_box_path summary_box_path
path_of root (compile_box id subtask) = compile_box_path root (pos id) subtask
path_of root (execute_box id td stage) = execute_box_path root (pos id) (pos td) (pos stage)
path_of root (scoring_box id td stage) = scoring_box_path root (pos id) (pos td) (pos stage)
path_of root (summary_box id) = summary_box_path root (pos id)

-- The parts of a name before and after its first `_`.
unfoldable before_mark : Name → Name
before_mark [] = []
before_mark (c ∷ cs) = if c == 95 then [] else c ∷ before_mark cs

unfoldable after_mark : Name → Name
after_mark [] = []
after_mark (c ∷ cs) = if c == 95 then cs else after_mark cs

before_mark-append : (xs ys : Name) → All IsDigit xs → before_mark (xs ++ (95 ∷ ys)) ≡ xs
unfolding before_mark
before_mark-append [] ys h = refl
before_mark-append (x ∷ xs) ys h =
    let other : (x == 95) ≡ false = ground (arith, h.0) in
    rw other (ap (λ l. x ∷ l) (before_mark-append xs ys h.1))

after_mark-append : (xs ys : Name) → All IsDigit xs → after_mark (xs ++ (95 ∷ ys)) ≡ ys
unfolding after_mark
after_mark-append [] ys h = refl
after_mark-append (x ∷ xs) ys h =
    let other : (x == 95) ≡ false = ground (arith, h.0) in rw other (after_mark-append xs ys h.1)

unfoldable subtask_of : ℕ → CompileSubtask
subtask_of n =
    if n == 0
    then userprog
    else (if n == 1 then specjudge else (if n == 2 then summary_prog else probprog))

-- The task of a box by the name of the box and that of its parent.
unfoldable task_of : ℕ → Name → TaskBox
unfolding subtask_of before_mark after_mark value_from
task_of id name =
    let rest = drop 7 name in
    if get_or name 0 0 == 99
    then compile_box id (subtask_of (value_from 0 rest))
    else if get_or name 0 0 == 101
    then execute_box id (value_from 0 (before_mark rest)) (value_from 0 (after_mark rest))
    else if get_or name 1 0 == 99
    then scoring_box id (value_from 0 (before_mark rest)) (value_from 0 (after_mark rest))
    else summary_box id

unfoldable unbox : List Name → List Name → TaskBox
unfolding task_of value_from
unbox root path =
    task_of (value_from 0 (get_or path (length root) [])) (get_or path (suc (length root)) [])

get_or-first :
    (root : List Name) (x y : Name) → get_or ((root ++ (x ∷ [])) ++ (y ∷ [])) (length root) [] ≡ x
get_or-first [] x y = refl
get_or-first (r ∷ root) x y = get_or-first root x y

get_or-second :
    (root : List Name) (x y : Name)
    → get_or ((root ++ (x ∷ [])) ++ (y ∷ [])) (suc (length root)) [] ≡ y
get_or-second [] x y = refl
get_or-second (r ∷ root) x y = get_or-second root x y

unbox-join :
    (root : List Name) (id : ℕ) (name : Name)
    → unbox root (join (submission_run_path root (pos id)) name) ≡ task_of id name
unfolding unbox submission_run_path
unbox-join root id name =
    rw
      (
        get_or-first root (pad_int (pos id) 6) name,
        get_or-second root (pad_int (pos id) 6) name,
        value_from-pad_int id 6,
      )
      refl

pair_lem :
    (td stage : ℕ)
    → (value_from 0 (before_mark (pad_int (pos td) 3 ++ (95 ∷ pad_int (pos stage) 2))) ≡ td)
      × (value_from 0 (after_mark (pad_int (pos td) 3 ++ (95 ∷ pad_int (pos stage) 2))) ≡ stage)
pair_lem td stage =
    let ds = pad_int-IsDigit td 3 in
    (
      ap (value_from 0) (before_mark-append (pad_int (pos td) 3) (pad_int (pos stage) 2) ds)
          ∙ value_from-pad_int td 3,
      ap (value_from 0) (after_mark-append (pad_int (pos td) 3) (pad_int (pos stage) 2) ds)
          ∙ value_from-pad_int stage 2,
    )

task_of-execute_box :
    (id : ℕ) (xs ys : Name) (td stage : ℕ)
    → (value_from 0 (before_mark (xs ++ (95 ∷ ys))) ≡ td)
      × (value_from 0 (after_mark (xs ++ (95 ∷ ys))) ≡ stage)
    → task_of id (chars "execute" ++ xs ++ chars "_" ++ ys) ≡ execute_box id td stage
unfolding chars task_of
task_of-execute_box id xs ys td stage h =
    let names = append_assoc xs (95 ∷ []) ys in
    ap (λ l. execute_box id (value_from 0 (before_mark l)) (value_from 0 (after_mark l))) names
    ∙ ap (λ x. execute_box id x (value_from 0 (after_mark (xs ++ (95 ∷ ys))))) h.0
    ∙ ap (λ x. execute_box id td x) h.1

task_of-scoring_box :
    (id : ℕ) (xs ys : Name) (td stage : ℕ)
    → (value_from 0 (before_mark (xs ++ (95 ∷ ys))) ≡ td)
      × (value_from 0 (after_mark (xs ++ (95 ∷ ys))) ≡ stage)
    → task_of id (chars "scoring" ++ xs ++ chars "_" ++ ys) ≡ scoring_box id td stage
unfolding chars task_of
task_of-scoring_box id xs ys td stage h =
    let names = append_assoc xs (95 ∷ []) ys in
    ap (λ l. scoring_box id (value_from 0 (before_mark l)) (value_from 0 (after_mark l))) names
    ∙ ap (λ x. scoring_box id x (value_from 0 (after_mark (xs ++ (95 ∷ ys))))) h.0
    ∙ ap (λ x. scoring_box id td x) h.1

unbox-path_of : (root : List Name) (b : TaskBox) → unbox root (path_of root b) ≡ b
unfolding path_of compile_box_path execute_box_path scoring_box_path summary_box_path chars task_of
    subtask_of to_string digits value_from
unbox-path_of root (compile_box id userprog) = unbox-join root id _
unbox-path_of root (compile_box id specjudge) = unbox-join root id _
unbox-path_of root (compile_box id summary_prog) = unbox-join root id _
unbox-path_of root (compile_box id probprog) = unbox-join root id _
unbox-path_of root (execute_box id td stage) =
    unbox-join root id _
    ∙ task_of-execute_box id (pad_int (pos td) 3) (pad_int (pos stage) 2) td stage
        (pair_lem td stage)
unbox-path_of root (scoring_box id td stage) =
    unbox-join root id _
    ∙ task_of-scoring_box id (pad_int (pos td) 3) (pad_int (pos stage) 2) td stage
        (pair_lem td stage)
unbox-path_of root (summary_box id) = unbox-join root id _

-- Whatever the root of the boxes is, no two tasks, of one submission or of two, share a box: those of the
-- compilations, executions, scorings and the summary differ, however long their numbers are.
pub path_of-injective : (root : List Name) (a b : TaskBox) → path_of root a ≡ path_of root b → a ≡ b
path_of-injective root a b e = sym (unbox-path_of root a) ∙ ap (unbox root) e ∙ unbox-path_of root b
