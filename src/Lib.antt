-- ===== src/Lib.antt =====
-- PickWise v2 backend: a verification library of the parts of the Python backend that keep state
-- or decide. All paths are from the repository's root.
--
-- Parts and files
--   Prelude     Boolean tests on native numbers, lists, and tables as association lists, which
--               stand for the rows of a database table or a dict.
--   Jobs        app/common/job_model.py, app/common/job_service.py, app/common/job_router.py. The
--               routers create a background job (create_job), refuse a second one of a group
--               (refuse_if_running), and hand a worker to run_job, which reports its progress
--               through the job's row. cancel_job writes to the same row from another request, and
--               reset_stale_jobs runs at startup. `run_job` takes the worker as the list of its
--               bookkeeping calls, with the cancel requests that fall between them, and its
--               ending; `faulty` says which transactions raise.
--   Throttle    app/common/http_rate_limit.py. `record_hit` is _record on the dict of deques; the
--               deque it holds is a reference, and `settle` says when the dict loses it. Limits has the
--               limits that the routes ask for.
--   Families    app/laptops/family_service.py: deduplicate_by_family, closest_to_budget and
--               move_laptops; the rankings use the first two. Families/Regroup has
--               resolve_family_id and regroup_unassigned.
--   PriceGuide  app/laptops/price_guide_service.py: decide, apply_guide, use_guide_price and
--               delete_guide on the tables of laptops and of their price history.
--   PriceMatch  app/laptops/price_guide.py: which laptops a guide prices, before PriceGuide applies
--               it. The tests on text are a record of functions.
--   PickScore   app/pickscore/engine.py and app/pickscore/schemas.py: Platform holds what the engine
--               uses of Python's floats and strings, Factors the eight factors, Weights the
--               weights, Total the score. What the benchmark tables resolve is an argument.
--   Benchmark   app/pickscore/benchmark_service.py: the mark that PickScore takes. Matching is the match
--               of a name without caches, Lookup resolve_benchmark with its caches, Gpu
--               resolve_gpu_benchmark, Tables its dicts. rapidfuzz, hash and the text functions
--               are a record of functions.
--   Configurator  app/processor/apple_options.py (Kits) and app/laptops/options_service.py (Service):
--               what a chip allows, the check of a configuration and its price, over floats that
--               come in.
--   Reviews     app/reviews/funnel.py (Funnel) and the fetch guard of app/reviews/transcript.py
--               (Fetch), which the retry worker of app/reviews/jobs.py uses (Workers). The funnel's
--               query and the candidates of the processor are arguments.
--   Rag         app/rag/relaxation.py and app/rag/gating.py: the relaxed search and the gate. The
--               retrieval and the reranking are functions that come in. Rag/Rerank is
--               app/rag/reranker.py over the floats of PickScore/Platform.
--   Accounts    app/users: the sign-in. Users has the table, Tokens app/users/auth.py, Routes,
--               Passwords and Google the routes of app/users/router.py, Admins the guards of
--               app/users/admin_router.py. The routes count their mails and attempts with
--               Throttle/Limits. The password hash, the HMAC and the JWT library are a record of
--               functions with their documented behaviour, and Plain is one such record.
-- In each part the file with its name holds the definitions and its children the proofs, with
-- concrete runs in Examples; PickScore and Reviews have their definitions in children.
--
-- Numbers and bounds. Times, prices and ids are natural numbers. A price is in sen, and a weight in
-- grams, except in PickScore, Rag/Rerank and Configurator, where they are floats; so is a confidence
-- in Benchmark. Python's integers do not overflow. A division by zero in PickScore and Rag/Rerank is
-- a missing result. Python's hash in Benchmark is a number, which two tables may share. The loops of
-- the source that are modelled run over a list or, in the relaxed search, over a fixed number of
-- steps, except the search for a free user name: its fuel is the number of accounts, and where that
-- many names are taken the next one is free. The bounds of the source (50 stored errors, 10,000
-- tracked keys, 100 points) are constants.
--
-- Not modelled: the scrapers, the LLM calls, the SQL that finds rows (a function takes the rows),
-- logging, and the HTTP layer. A regular expression or another function on text comes in as a
-- function. Python's floats are an interface: the bounds on the scores hold for
-- every arithmetic with the order laws that PickScore/Platform states, and the examples run on the
-- whole numbers of PickScore/Whole.
pub mod Prelude
pub mod Jobs
pub mod Throttle
pub mod Families
pub mod PriceGuide
pub mod PriceMatch
pub mod PickScore
pub mod Reviews
pub mod Rag
pub mod Accounts
pub mod Benchmark
pub mod Configurator
