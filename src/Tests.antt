-- ===== src/Tests.antt =====
-- Runs of the modelled code on concrete inputs, and each theorem at an input that meets its
-- hypotheses.
mod VisitedRuns
mod BookmarkRuns
mod SchedulerRuns
mod SessionRuns
mod CookieRuns
mod CacheRuns
mod MarkupRuns
mod DomRuns
mod CssRuns
mod ContentRuns
