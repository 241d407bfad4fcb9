-- ===== src/Outbox/Events.antt =====
-- Recording an event changes no table but the events.
use job_hound.Base.{ℕ, String}
use job_hound.Outbox.Rows.{Owner, EventName}
use job_hound.Outbox.Revise.{record_event}
use job_hound.Outbox.Triples.{Core, On, Triple, owned_then, modify_lem}

pub record_event-On :
    (R : Core) (o : Owner) (id : ℕ) (name : EventName) (evidence : String) (now : ℕ)
    → Triple (On R) (record_event o id name evidence now) (λ _. On R)
unfolding record_event
record_event-On R o id name evidence now = owned_then _ _ (λ row. modify_lem _ (λ db h. h.0))
