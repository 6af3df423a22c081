-- ===== src/Messages/Tests.antt =====
-- A message of both transports (src/message.c).
use libkrossbar.Prelude.{[], ◌∷◌}
use libkrossbar.Messages.{Objects}

abbrev objects : Objects
objects = 700 ∷ 800 ∷ []
