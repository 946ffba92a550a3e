-- ===== src/Migrate/Collect/Keeps.antt =====
-- The loop over the queue puts nothing under a shard that the account does not leave for.
use block_preempt.Prelude.{
  ◌≡◌, sym, ◌∙◌, Bool, true, false, none, some, some_inj, List, [], ◌∷◌, ◌>>=◌, >>=-eq-some,
}
use block_preempt.Account.Hex.{Str}
use block_preempt.Core.TxPool.{Ref}
use block_preempt.Migrate.{add_pending}
use block_preempt.Migrate.Under.{AllUnder, add_pending-AllUnder}
use block_preempt.Migrate.Collect.{
  IsDelete, Collecting, second_half, collect_at, mark_rec_lock, collect_recipients, collect_queue,
  keep,
}
use block_preempt.Migrate.Collect.Places.{
  Place, collect_place, leaves_with, collect_recipients-place,
}

collect_at-AllUnder :
    (isdelete : IsDelete) (p : Str × Str) (v : Ref) (s : Collecting) (r : Bool × Collecting)
    → AllUnder isdelete s.caps
    → collect_at p.0 p.1 v s ≡ some r
    → AllUnder isdelete r.1.caps
collect_at-AllUnder isdelete p v s r h e =
    let (caps, added, done) =
      >>=-eq-some (add_pending p.0 p.1 v s.caps) (λ caps. some (true, record s { caps = caps }))
        e in
    let same = some_inj done in
    rw (sym same) (add_pending-AllUnder isdelete p.0 p.1 v s.caps caps h added)

collect_place-AllUnder :
    (isdelete : IsDelete) (place : Place) (half : Bool) (v : Ref) (s : Collecting)
    (r : Bool × Collecting)
    → AllUnder isdelete s.caps
    → collect_place place half v s ≡ some r
    → AllUnder isdelete r.1.caps
collect_place-AllUnder isdelete none half v s r h e = rw (sym (some_inj e)) h
collect_place-AllUnder isdelete (some p) false v s r h e = collect_at-AllUnder isdelete p v s r h e
collect_place-AllUnder isdelete (some p) true v s r h e =
    collect_at-AllUnder isdelete p v (mark_rec_lock v s) r h e

pub collect_queue-AllUnder :
    (isdelete : IsDelete) (queue : List Ref) (s : Collecting) (r : List Ref × Collecting)
    → AllUnder isdelete s.caps
    → collect_queue isdelete queue s ≡ some r
    → AllUnder isdelete r.1.caps
unfolding collect_queue
collect_queue-AllUnder isdelete [] s r h e = rw (sym (some_inj e)) h
collect_queue-AllUnder isdelete (v ∷ queue) s r h e =
    let (a, e₁, rest) =
      >>=-eq-some (collect_recipients isdelete v (s.pool.store v).recipient s)
        (λ a. collect_queue isdelete queue a.1 >>= λ b. some (keep a.0 v b.0, b.1)) e in
    let (b, e₂, done) =
      >>=-eq-some (collect_queue isdelete queue a.1) (λ b. some (keep a.0 v b.0, b.1)) rest in
    let place = leaves_with isdelete (s.pool.store v) in
    let h₁ =
      collect_place-AllUnder isdelete place (second_half (s.pool.store v)) v s a h
        (sym (collect_recipients-place isdelete v s) ∙ e₁) in
    rw (sym (some_inj done)) (collect_queue-AllUnder isdelete queue a.1 b h₁ e₂)
