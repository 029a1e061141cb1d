-- ===== src/Channel/Obeys.antt =====
-- channel.cc, the handlers under `#ifdef WORKS`: each does what its caller may do.
use napsteresque.Command.{Command}
use napsteresque.Channel.Talk.{Order, remote_joins, remote_parts, remote_says, remote_emotes}

-- What a user here sends in, not another server.
abbrev pub IsLocal : Order → Type 0
IsLocal remote_joins = ⊥
IsLocal remote_parts = ⊥
IsLocal remote_says = ⊥
IsLocal remote_emotes = ⊥
IsLocal _ = Unit
