-- ===== src/Tests.antt =====
-- Tests of the model on small inputs, and the theorems at inputs that meet their hypotheses.
mod KeyRuns
mod TcpRuns
mod FlowRuns
mod SpiRuns
mod HostRuns
mod ParserRuns
mod PipelineRuns
mod RouteRuns
