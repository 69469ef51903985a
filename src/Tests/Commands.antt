-- ===== src/Tests/Commands.antt =====
-- The theorems on commands and jobs, at inputs that meet their hypotheses.
use cake.Prelude.{◌≡◌, refl, ◌⊎◌, inl, true, none, List, [], ◌∷◌, arith, pos}
use cake.Text.{Text, codes, c_str}
use cake.System.{done, stopped, exited, replaced, ◌>>◌}
use cake.Command.{change_dir, run_image, execute_command, execute_grab}
use cake.Command.Laws.{
  execute_command_iff, child_stops, execute_command-killed, execute_command-fork_failed,
}
use cake.Command.Output.{execute_grab-collects}
use cake.Build.Jobs.{add_compile_job, complete_jobs}
use cake.Build.Jobs.Tally.{Accounts, active}
use cake.Build.Jobs.Add.{add_compile_job-Accounts}
use cake.Build.Jobs.Complete.{complete_jobs-Accounts}
use cake.Tests.World.{small, small_apart, full, deadly, machine, site}

abbrev gcc : List Text
gcc = codes "gcc" ∷ []

execute_command_iff_example : (execute_command small gcc none machine).0 ≡ done (true, 0)
execute_command_iff_example =
    (execute_command_iff small gcc none machine 0 (λ e. cc)).1 (refl, refl)

child_stops_example :
    let r = ((change_dir small none >> run_image small gcc) machine).0 in
    (r ≡ stopped replaced) ⊎ (r ≡ stopped (exited 255))
child_stops_example = child_stops small gcc none machine

execute_command-killed_example : (execute_command deadly gcc none machine).0 ≡ done (true, 0)
execute_command-killed_example =
    execute_command-killed deadly gcc none machine (λ e. cc) refl (omega arith)

counted_as_success : (execute_command full gcc none machine).0 ≡ done (true, 0)
counted_as_success = execute_command-fork_failed full gcc none machine refl refl

execute_grab-collects_example :
    execute_grab small gcc none machine
    ≡ (done (true, 0, codes "processor"), record machine { world = 2 })
unfolding c_str
execute_grab-collects_example =
    execute_grab-collects small gcc none machine (pos 3) (pos 4) 0 2 (codes "processor" ∷ []) refl
      (λ e. cc) (λ e. cc) (2, (λ e. cc), refl, (none, inl refl, refl)) (omega arith) refl

add_compile_job-Accounts_example :
    let r = add_compile_job small (codes "obj/a.o") gcc site in
    (r.0 ≡ done tt) × Accounts 1 site.build r.1.build
add_compile_job-Accounts_example =
    add_compile_job-Accounts small small_apart (codes "obj/a.o") gcc site (omega arith)

complete_jobs-Accounts_example :
    let s = (add_compile_job small (codes "obj/a.o") gcc site).1 in
    let r = complete_jobs small s in
    (r.0 ≡ done tt) × Accounts 0 s.build r.1.build × (active r.1.build.jobs ≡ 0)
complete_jobs-Accounts_example =
    complete_jobs-Accounts small (add_compile_job small (codes "obj/a.o") gcc site).1
