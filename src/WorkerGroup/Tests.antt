-- ===== src/WorkerGroup/Tests.antt =====
-- A group of three loops.
use cpp_coroutine_epoll.Common.{◌*◌, ◌≡◌, arith}
use cpp_coroutine_epoll.Common.Family.{count}
use cpp_coroutine_epoll.WorkerGroup.Group.{WorkerGroup, started, size, nexts}
use cpp_coroutine_epoll.WorkerGroup.RoundRobin.{round_robin}

abbrev three : WorkerGroup
three = record { loops = started 3; next_index = 4 }

round_robin_example : count 2 (nexts (5 * size three) three) ≡ 5
unfolding size started
round_robin_example = round_robin 5 2 three (omega arith) (omega arith)
