-- ===== src/Apply/Run/Returns.antt =====
-- A run that was planned returns a report, whatever the ports answer.
use houba.Common.Dict.{Dict}
use houba.Common.Eq.{string_eq}
use houba.Session.Edges.{Edges}
use houba.Session.Answers.{Answers}
