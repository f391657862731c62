-- ===== src/Tests/Lives.antt =====
-- The results on an instance, for one that has started.
use bun_boss.Base.{[], ◌∷◌, List}
use bun_boss.Instance.{Event, call, resolved, start}

abbrev started_once : List Event
started_once = call start ∷ resolved ∷ []
