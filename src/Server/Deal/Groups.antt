-- ===== src/Server/Deal/Groups.antt =====
-- The groups of the testdata that `DealOneSubmission` of src/server_io.cpp reads.
use tioj_judge.Base.{
  ℕ, zero, suc, ◌+◌, ◌≤◌, ◌<◌, ◌≡◌, ◌∙◌, refl, ap, subst, List, [], ◌∷◌, ◌++◌, Option, arith, ltb,
  Holds-if, length, All,
}
use tioj_judge.Base.Partial.{Post, Post-bind, Post-some}
use tioj_judge.Base.Int.{ℤ, pos, negsuc}
use tioj_judge.Verdict.{Compiler}
use tioj_judge.Submission.{TestdataItem}
use tioj_judge.Server.Frames.{TaskFrame}
use tioj_judge.Server.Deal.Limits.{Limits}
use tioj_judge.Server.Deal.{add_group, add_position, add_positions, add_tasks}

-- The groups of a testdata are among the first `n`.
abbrev pub Placed : ℕ → Compiler → TestdataItem → Type 0
Placed n lang lim = Limits lang lim × All (λ g. g < n) lim.td_groups

All-last :
    {A : Type 0} (P : A → Type 0) (xs : List A) (x : A) → All P xs → P x → All P (xs ++ (x ∷ []))
All-last P [] x h p = (p, tt)
All-last P (y ∷ xs) x h p = (h.0, All-last P xs x h.1 p)

abbrev Good : ℕ → Compiler → ℕ → List TestdataItem → Type 0
Good n lang size lims = (length lims ≡ size) × All (Placed n lang) lims

add_group-Placed :
    (n : ℕ) (lang : Compiler) (group p : ℕ) (lims : List TestdataItem)
    → group < n
    → All (Placed n lang) lims
    → Post (Good n lang (length lims)) (add_group group p lims)
unfolding add_group
add_group-Placed n lang group p [] h a = tt
add_group-Placed n lang group zero (lim ∷ lims) h a =
    let l = a.0.0 in
    (
      refl,
      (
        (
          record {
            vss_le = l.vss_le;
            rss_le = l.rss_le;
            output_le = l.output_le;
            no_vss = l.no_vss;
          },
          All-last (λ g. g < n) lim.td_groups group a.0.1 h,
        ),
        a.1,
      ),
    )
add_group-Placed n lang group (suc p) (lim ∷ lims) h a =
    Post-bind (Good n lang (suc (length lims))) (add_group group p lims) _ (λ rest e.
      let (size, each) =
        Post-some _ (add_group group p lims) rest (add_group-Placed n lang group p lims h a.1) e in
      (ap suc size, (a.0, each)))

add_positions-Placed :
    (n : ℕ) (lang : Compiler) (group : ℕ) (qs : List (Option ℤ)) (lims : List TestdataItem)
    → group < n
    → All (Placed n lang) lims
    → Post (Good n lang (length lims)) (add_positions group qs lims)
unfolding add_positions
add_positions-Placed n lang group [] lims h a = (refl, a)
add_positions-Placed n lang group (q ∷ qs) lims h a =
    let G = Good n lang (length lims) in
    Post-bind G q _ (λ p e. Post-bind G (add_position group p lims) _ (λ lims' e'.
      let (size, each) = Post-some G (add_position group p lims) lims' (position p) e' in
      subst (λ k. Post (Good n lang k) (add_positions group qs lims')) size
        (add_positions-Placed n lang group qs lims' h each)))
  where
    position : (p : ℤ) → Post (Good n lang (length lims)) (add_position group p lims)
    position (negsuc p) = tt
    position (pos p) =
        Holds-if (Post (Good n lang (length lims))) (ltb p (length lims)) _ _
          (λ b. add_group-Placed n lang group p lims h a) (λ b. tt)

pub add_tasks-Placed :
    (n : ℕ) (lang : Compiler) (group : ℕ) (ts : List TaskFrame) (lims : List TestdataItem)
    → group + length ts ≤ n
    → All (Placed n lang) lims
    → Post
        (λ r. (length r.0 ≡ length lims) × All (Placed n lang) r.0 × (length r.1 ≡ length ts))
        (add_tasks group ts lims)
unfolding add_tasks
add_tasks-Placed n lang group [] lims h a = (refl, a, refl)
add_tasks-Placed n lang group (t ∷ ts) lims h a =
    let R : List TestdataItem × List ℤ → Type 0 =
      λ r. (length r.0 ≡ length lims) × All (Placed n lang) r.0 × (length r.1 ≡ suc (length ts)) in
    Post-bind R (add_positions group t.positions lims) _ (λ lims' e.
      let (size, each) =
        Post-some (Good n lang (length lims)) (add_positions group t.positions lims) lims'
          (add_positions-Placed n lang group t.positions lims (omega arith) a) e in
      Post-bind R t.score _ (λ score e'.
        Post-bind R (add_tasks (suc group) ts lims') _ (λ (lims'', scores) e''.
          let (size', each', count) =
            Post-some _ (add_tasks (suc group) ts lims') (lims'', scores)
              (add_tasks-Placed n lang (suc group) ts lims' (omega arith) each) e'' in
          (size' ∙ size, each', ap suc count))))
